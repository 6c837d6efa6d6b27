-- ===== src/Release/History.antt =====
-- `VerifyReleaseDiff` along a history (internal/repository/tree.go).
use unlock_catalog_publisher.Base.{
  ◌≡◌, sym, subst, ◌∙◌, true, Option, Bytes, Dict, some, arith, all, all-mem, lookup, ok,
  ok-injective, wrap_elim, ◌>>=◌, ==_iff, Mem, ◌==◌, inl, inr, Option-cases,
}
use unlock_catalog_publisher.Primitives.{Primitives}
use unlock_catalog_publisher.Release.Types.{
  Tree, TreeFile, immutable, base_repository, candidate_repository,
}
use unlock_catalog_publisher.Release.Disk.{
  Node, Repository, read_repository_sources, validate_repository_root,
}
use unlock_catalog_publisher.Release.Diff.{verify_sources, verify_release_diff}
use unlock_catalog_publisher.Release.Append.{kept}
use unlock_catalog_publisher.Release.Succession.{
  succeeds, sound, verify_sources_iff, read_repository_sources-sound, verify_sources_trans,
}

-- What was published under an immutable path in the base stands in the candidate, byte for byte.
pub Preserved : Dict Tree → Dict Tree → Type 0
Preserved base candidate =
    (source_id : Bytes) (files : Tree) (path : Bytes) (file : TreeFile)
    → Mem (source_id, files) base
    → Mem (path, file) files
    → immutable file.kind ≡ true
    → (candidate_files : Tree) × (other : TreeFile) × (lookup source_id candidate
        ≡ some candidate_files)
      × (lookup path candidate_files ≡ some other)
      × (other.mode ≡ file.mode)
      × (other.body ≡ file.body)

kept-file :
    (candidate : Tree) (path : Bytes) (file : TreeFile)
    → kept candidate (path, file) ≡ true
    → immutable file.kind ≡ true
    → (other : TreeFile) × (lookup path candidate ≡ some other)
      × (other.mode ≡ file.mode)
      × (other.body ≡ file.body)
kept-file candidate path file k fixed = elim (Option-cases (lookup path candidate)) [
  | inl n ↦ absurd (ground arith)
  | inr (other, s) ↦
      let same_mode : other.mode ≡ file.mode = ground arith in
      let same : other.body == file.body ≡ true = ground arith in
      (other, s, same_mode, (==_iff other.body file.body).0 same)
]

verify_sources-Preserved :
    (base candidate : Dict Tree) → verify_sources base candidate ≡ ok tt → Preserved base candidate
unfolding Preserved
verify_sources-Preserved base candidate h source_id files path file m i fixed =
    let there : succeeds candidate (source_id, files) ≡ true =
      all-mem (succeeds candidate) base ((verify_sources_iff base candidate).0 h) (source_id, files)
        m in
    elim (Option-cases (lookup source_id candidate)) [
      | inl n ↦ absurd (ground arith)
      | inr (found, s) ↦
          let each : all (kept found) files ≡ true = ground arith in
          let (other, at, same_mode, same_body) =
            kept-file found path file (all-mem (kept found) files each (path, file) i) fixed in
          (found, other, s, at, same_mode, same_body)
    ]

module _ (P : Primitives) where
  -- The sources that are read below a root.
  pub Reads : Bytes → Repository → Dict Tree → Type 0
  Reads root r sources =
      (prefix : Option (Dict Node)) × (validate_repository_root root r ≡ ok prefix)
      × (read_repository_sources P prefix ≡ ok sources)

  Reads-unique :
      (root : Bytes) (r : Repository) {s t : Dict Tree} → Reads root r s → Reads root r t → s ≡ t
  unfolding Reads
  Reads-unique root r {s} {t} (p, opened, read) (q, opened', read') =
      let same : q ≡ p = ok-injective (sym opened' ∙ opened) in
      let again = subst (λ x. read_repository_sources P x ≡ ok t) same read' in
      ok-injective (sym read ∙ again)

  verify_release_diff_sound :
      (root_a root_b : Bytes) (a b : Repository)
      → verify_release_diff P root_a a root_b b ≡ ok tt
      → (s : Dict Tree) × (t : Dict Tree) × Reads root_a a s
        × Reads root_b b t
        × (verify_sources s t ≡ ok tt)
  unfolding verify_release_diff Reads
  verify_release_diff_sound root_a root_b a b h =
      wrap_elim base_repository (validate_repository_root root_a a) _ h λ p opened_a h₁.
        wrap_elim candidate_repository (validate_repository_root root_b b) _ h₁ λ q opened_b h₂.
          wrap_elim base_repository (read_repository_sources P p) _ h₂ λ s read_a h₃.
            wrap_elim candidate_repository (read_repository_sources P q) _ h₃
              λ t read_b verified. (s, t, (p, opened_a, read_a), (q, opened_b, read_b), verified)

  verify_release_diff_complete :
      (root_a root_b : Bytes) (a b : Repository) (s t : Dict Tree)
      → Reads root_a a s
      → Reads root_b b t
      → verify_sources s t ≡ ok tt
      → verify_release_diff P root_a a root_b b ≡ ok tt
  unfolding verify_release_diff Reads ◌>>=◌
  verify_release_diff_complete root_a root_b a b s t (p, opened_a, read_a) (q, opened_b, read_b) h =
      rw (opened_a, opened_b, read_a, read_b) h

  Reads-sound :
      (root : Bytes) (r : Repository) (s : Dict Tree) → Reads root r s → all sound s ≡ true
  unfolding Reads
  Reads-sound root r s (p, _, read) = read_repository_sources-sound P p read

  -- When `VerifyReleaseDiff` accepts a second repository after a first, and a third after the second, it
  -- accepts the third after the first, and each file of an immutable kind of each source that is read of the
  -- first is read of the third too, in the same source, at the same path, with the same mode and bytes.
  pub verify_release_diff_trans :
      (root_a root_b root_c : Bytes) (a b c : Repository)
      → verify_release_diff P root_a a root_b b ≡ ok tt
      → verify_release_diff P root_b b root_c c ≡ ok tt
      → (verify_release_diff P root_a a root_c c ≡ ok tt)
        × (first : Dict Tree) × (third : Dict Tree) × Reads root_a a first
        × Reads root_c c third
        × Preserved first third
  verify_release_diff_trans root_a root_b root_c a b c h k =
      let (s, t, reads_a, reads_b, first) = verify_release_diff_sound root_a root_b a b h in
      let (t', u, reads_b', reads_c, second) = verify_release_diff_sound root_b root_c b c k in
      let same = Reads-unique root_b b reads_b' reads_b in
      let both =
        verify_sources_trans s t u (Reads-sound root_a a s reads_a) (Reads-sound root_b b t reads_b)
          first (subst (λ x. verify_sources x u ≡ ok tt) same second) in
      (
        verify_release_diff_complete root_a root_c a c s u reads_a reads_c both,
        s,
        u,
        reads_a,
        reads_c,
        verify_sources-Preserved s u both,
      )
