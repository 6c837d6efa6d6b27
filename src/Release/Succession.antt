-- ===== src/Release/Succession.antt =====
-- The checks of `VerifyReleaseDiff` (internal/repository/tree.go) as tests, and that they compose.
use unlock_catalog_publisher.Base.{
  ◌≡◌, ◌↔◌, refl, subst, Bool, true, false, not, ◌&&◌, ◌||◌, [], ◌∷◌, Option, codes, Bytes, Dict,
  none, some, arith, all, all-mem, all-of_mem, lookup, insert, Result, ok, for_each,
  for_each-invariant, ok-injective, bind_elim, then_elim, refuse_elim, ◌>>=◌, ◌>>◌, refuse, ==_iff,
  ◌==◌, Bool-cases, inl, inr, Option-cases,
}
use unlock_catalog_publisher.Base.Growth.{lookup-mem}
use unlock_catalog_publisher.Base.Patterns.{id_pattern}
use unlock_catalog_publisher.Primitives.{Primitives}
use unlock_catalog_publisher.Release.Types.{Tree, TreeFile, ReleaseError, unexpected_entry}
use unlock_catalog_publisher.Release.Complete.{validate_complete_source_tree}
use unlock_catalog_publisher.Release.Disk.{
  Node, read_source_tree, read_entry, read_repository_sources, is_plain, is_directory,
}
use unlock_catalog_publisher.Release.Diff.{check_source, verify_sources}
use unlock_catalog_publisher.Release.Append.{classified, kept, all-insert, check_kept-all}
use unlock_catalog_publisher.Release.Reading.{read_source_tree-classified}

-- The candidate has the source and keeps its files.
abbrev pub succeeds : Dict Tree → Bytes × Tree → Bool
succeeds candidate (source_id, files) = elim (lookup source_id candidate) [
  | none ↦ false
  | some candidate_files ↦ all (kept candidate_files) files
]

abbrev pub sound : Bytes × Tree → Bool
sound (source_id, files) = all classified files

check_source_iff :
    (candidate : Dict Tree) (u : Unit {0}) (e : Bytes × Tree)
    → (check_source candidate u e ≡ ok tt) ↔ (succeeds candidate e ≡ true)
unfolding check_source ◌>>=◌
check_source_iff candidate u (source_id, files) = elim (Option-cases (lookup source_id candidate)) [
  | inl n ↦ (λ h. ground arith, λ h. ground arith)
  | inr (found, s) ↦ rw (s, succeeds) (check_kept-all found files)
]

pub verify_sources_iff :
    (base candidate : Dict Tree)
    → (verify_sources base candidate ≡ ok tt) ↔ (all (succeeds candidate) base ≡ true)
unfolding verify_sources for_each all ◌>>=◌
verify_sources_iff [] candidate = (λ h. refl, λ h. refl)
verify_sources_iff (e ∷ es) candidate = (
  λ h. bind_elim _ _ h λ u first rest.
      let one : succeeds candidate e ≡ true = (check_source_iff candidate tt e).0 first in
      let more : all (succeeds candidate) es ≡ true = (verify_sources_iff es candidate).0 rest in
      ground arith,
  λ h.
      let first : check_source candidate tt e ≡ ok tt =
        (check_source_iff candidate tt e).1 (ground arith) in
      rw first ((verify_sources_iff es candidate).1 (ground arith)),
)

kept_trans :
    (b c : Tree) (path : Bytes) (f : TreeFile)
    → all classified b ≡ true
    → all (kept c) b ≡ true
    → classified (path, f) ≡ true
    → kept b (path, f) ≡ true
    → kept c (path, f) ≡ true
kept_trans b c path f cb bc cf ab = elim (Option-cases (lookup path b)) [
  | inl n ↦ ground arith
  | inr (g, s) ↦
      let m = lookup-mem path b s in
      let cg : classified (path, g) ≡ true = all-mem classified b cb (path, g) m in
      let kg : kept c (path, g) ≡ true = all-mem (kept c) b bc (path, g) m in
      elim (Option-cases (lookup path c)) [
        | inl n ↦ ground arith
        | inr (h, t) ↦
            ground (arith, ==_iff g.body f.body, ==_iff h.body g.body, ==_iff h.body f.body)
      ]
]

succeeds_trans :
    (b c : Dict Tree) (e : Bytes × Tree)
    → all sound b ≡ true
    → all (succeeds c) b ≡ true
    → sound e ≡ true
    → succeeds b e ≡ true
    → succeeds c e ≡ true
succeeds_trans b c (source_id, files) sb bc se h = elim (Option-cases (lookup source_id b)) [
  | inl n ↦ absurd (ground arith)
  | inr (mid, s) ↦
      let m = lookup-mem source_id b s in
      let sm : all classified mid ≡ true = all-mem sound b sb (source_id, mid) m in
      let step : succeeds c (source_id, mid) ≡ true =
        all-mem (succeeds c) b bc (source_id, mid) m in
      let given : all (kept mid) files ≡ true = ground arith in
      elim (Option-cases (lookup source_id c)) [
        | inl n ↦ absurd (ground arith)
        | inr (last, t) ↦
            let onward : all (kept last) mid ≡ true = ground arith in
            rw (t, succeeds)
              (all-of_mem (kept last) files λ (path, f) i.
                kept_trans mid last path f sm onward (all-mem classified files se (path, f) i)
                  (all-mem (kept mid) files given (path, f) i))
      ]
]

read_entry-sound :
    (P : Primitives) (result : Dict Tree) (e : Bytes × Node) (t : Dict Tree)
    → all sound result ≡ true
    → read_entry P result e ≡ ok t
    → all sound t ≡ true
unfolding read_entry
read_entry-sound P result (name, node) t s h =
    elim (Bool-cases (name == codes "README.md" && is_plain node)) [
      | inl skipped ↦
          let out : ◌≡◌ {A = Result ReleaseError (Dict Tree)} (ok result) (ok t) = ground arith in
          subst (λ r. all sound r ≡ true) (ok-injective out) s
      | inr other ↦
          let go : (refuse (not (is_directory node) || not (id_pattern name)) unexpected_entry
                >> (read_source_tree P (some node) >>= λ r.
                    validate_complete_source_tree (r.0) >> ok (insert name (r.0) result)))
              ≡ ok t =
            ground arith in
          refuse_elim _ _ _ go λ named h₁. bind_elim _ _ h₁ λ r read h₂.
            then_elim _ _ h₂ λ complete out.
              subst (λ d. all sound d ≡ true) (ok-injective out)
                (all-insert sound name (r.0) result s
                  (read_source_tree-classified P (some node) read))
    ]

pub read_repository_sources-sound :
    (P : Primitives) (prefix : Option (Dict Node)) {sources : Dict Tree}
    → read_repository_sources P prefix ≡ ok sources
    → all sound sources ≡ true
unfolding read_repository_sources all
read_repository_sources-sound P none h = subst (λ d. all sound d ≡ true) (ok-injective h) refl
read_repository_sources-sound P (some entries) h =
    for_each-invariant (read_entry P) (λ d. all sound d ≡ true)
      (λ r x u s e. read_entry-sound P r x u s e) entries [] refl h

pub verify_sources_trans :
    (a b c : Dict Tree)
    → all sound a ≡ true
    → all sound b ≡ true
    → verify_sources a b ≡ ok tt
    → verify_sources b c ≡ ok tt
    → verify_sources a c ≡ ok tt
verify_sources_trans a b c sa sb ab bc =
    let first = (verify_sources_iff a b).0 ab in
    let second = (verify_sources_iff b c).0 bc in
    (verify_sources_iff a c).1 (
      all-of_mem (succeeds c) a λ e m.
        succeeds_trans b c e sb second (all-mem sound a sa e m) (all-mem (succeeds b) a first e m))
