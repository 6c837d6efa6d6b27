-- ===== src/Mirror/Exact.antt =====
-- A mirror that is accepted is the protected tree (`compareMirrorTrees`, internal/repository/mirror.go).
use mathlib.Core.List.{mem-map_of_mem}
use mathlib.Core.List.Perm
use unlock_catalog_publisher.Base.{
  ◌≡◌, ◌↔◌, refl, sym, ◌∙◌, Bool, true, not, ◌&&◌, [], ◌∷◌, Mem, Nodup, Bytes, Dict, arith, eqb,
  all, all-mem, all-of_mem, length, length-map, keys, lookup, has_key, has_key-contains,
  mem-contains, contains-mem, ok, for_each, bind_elim, refuse_elim, ◌>>=◌, ◌>>◌, ==_iff, Bool-cases,
  Option-cases, inl, inr,
}
use unlock_catalog_publisher.Base.Cover.{cover}
use unlock_catalog_publisher.Base.Distinct.{distinct, distinct_iff}
use unlock_catalog_publisher.Base.Growth.{lookup-mem, lookup-own}
use unlock_catalog_publisher.Release.Types.{Tree, TreeFile, immutable}
use unlock_catalog_publisher.Mirror.Compare.{
  same_file, has_match, compare_file, compare_source, compare_mirror_trees, source_count_differs,
  ensure_file, ensure_source, ensure_mirror_immutables_unchanged,
}

module _ {ℓ} {V : Type ℓ} where
  module _ (same : V → V → Bool) (a b : Dict V) where
    -- Two maps of one size are matched both ways when one is matched in the other.
    pub has_match_symm :
        Nodup (keys a)
        → Nodup (keys b)
        → length a ≡ length b
        → ((k : Bytes) (v w : V) → Mem (k, v) a → Mem (k, w) b → same v w ≡ true → same w v ≡ true)
        → all (has_match same b) a ≡ true
        → all (has_match same a) b ≡ true
    unfolding has_key
    has_match_symm na nb size flip h =
        let inside : (k : Bytes) → Mem k (keys a) → Mem k (keys b) =
          λ k m. contains-mem k (keys b) (sym (has_key-contains k b) ∙ found_in k m) in
        let p = cover (keys a) (keys b) na inside (
          omega (
            arith,
            size,
            length-map (λ (e : Bytes × V). e.0) a,
            length-map (λ (e : Bytes × V). e.0) b,
          )) in
        all-of_mem (has_match same a) b λ (k, w) i.
          let known = (Perm.mem_iff p).1 (mem-map_of_mem (λ (e : Bytes × V). e.0) i) in
          elim (Option-cases (lookup k a)) [
            | inl n ↦
                let there : has_key k a ≡ true =
                  has_key-contains k a ∙ mem-contains k (keys a) known in
                absurd (ground (arith, there, n))
            | inr (v, s) ↦
                let m = lookup-mem k a s in
                let one : same v w ≡ true =
                  sym (lookup-own (same v) k w b nb i) ∙ all-mem (has_match same b) a h (k, v) m in
                ground (arith, s, flip k v w m i one)
          ]
      where
        found_in : (k : Bytes) → Mem k (keys a) → has_key k b ≡ true
        found_in k m = elim (Option-cases (lookup k a)) [
          | inl n ↦
              let there : has_key k a ≡ true = has_key-contains k a ∙ mem-contains k (keys a) m in
              absurd (ground (arith, there, n))
          | inr (v, s) ↦
              let hit = all-mem (has_match same b) a h (k, v) (lookup-mem k a s) in
              elim (Option-cases (lookup k b)) [
                | inl n ↦ absurd (ground (arith, hit, n))
                | inr (w, t) ↦ ground (arith, t)
              ]
        ]

same_file_symm : (l r : TreeFile) → same_file l r ≡ true → same_file r l ≡ true
unfolding same_file
same_file_symm l r h = ground (arith, h, ==_iff l.body r.body, ==_iff r.body l.body)

-- Two trees have as many files, and each file of the one is in the other.
abbrev pub same_tree : Tree → Tree → Bool
same_tree left right = eqb (length left) (length right) && all (has_match same_file right) left

abbrev pub tree_distinct : Bytes × Tree → Bool
tree_distinct (source_id, files) = distinct (keys files)

same_tree_symm :
    (l r : Tree)
    → distinct (keys l) ≡ true
    → distinct (keys r) ≡ true
    → same_tree l r ≡ true
    → same_tree r l ≡ true
same_tree_symm l r dl dr h =
    let files : all (has_match same_file r) l ≡ true = ground (arith, h) in
    let size : length l ≡ length r = ground (arith, h) in
    let back =
      has_match_symm same_file l r ((distinct_iff (keys l)).0 dl) ((distinct_iff (keys r)).0 dr)
        size (λ k v w _ _ e. same_file_symm v w e) files in
    ground (arith, back, size)

for_each-compare_file :
    (mirror_files files : Tree)
    → (for_each (compare_file mirror_files) tt files ≡ ok tt)
      ↔ (all (has_match same_file mirror_files) files ≡ true)
unfolding for_each all compare_file ◌>>=◌
for_each-compare_file mirror_files [] = (λ h. refl, λ h. refl)
for_each-compare_file mirror_files (e ∷ es) =
    elim (Bool-cases (has_match same_file mirror_files e)) [
      | inl s ↦ (
        λ h. ground (arith, s, (for_each-compare_file mirror_files es).0),
        λ h. ground (arith, s, (for_each-compare_file mirror_files es).1),
      )
      | inr s ↦ (λ h. absurd (ground (arith, s, h)), λ h. absurd (ground (arith, s, h)))
    ]

compare_source_iff :
    (mirror : Dict Tree) (u : Unit {0}) (e : Bytes × Tree)
    → (compare_source mirror u e ≡ ok tt) ↔ (has_match same_tree mirror e ≡ true)
unfolding compare_source ◌>>=◌ ◌>>◌
compare_source_iff mirror u (source_id, files) = elim (Option-cases (lookup source_id mirror)) [
  | inl n ↦ (λ h. absurd (ground (arith, n, h)), λ h. absurd (ground (arith, n, h)))
  | inr (found, s) ↦ (
    λ h. ground (arith, s, h, (for_each-compare_file found files).0),
    λ h. ground (arith, s, h, (for_each-compare_file found files).1),
  )
]

for_each-compare_source :
    (mirror sources : Dict Tree)
    → (for_each (compare_source mirror) tt sources ≡ ok tt)
      ↔ (all (has_match same_tree mirror) sources ≡ true)
unfolding for_each all ◌>>=◌
for_each-compare_source mirror [] = (λ h. refl, λ h. refl)
for_each-compare_source mirror (e ∷ es) = (
  λ h. bind_elim _ _ h λ u first rest.
      let one : has_match same_tree mirror e ≡ true = (compare_source_iff mirror tt e).0 first in
      let more : all (has_match same_tree mirror) es ≡ true =
        (for_each-compare_source mirror es).0 rest in
      ground arith,
  λ h.
      let first : compare_source mirror tt e ≡ ok tt =
        (compare_source_iff mirror tt e).1 (ground arith) in
      rw first ((for_each-compare_source mirror es).1 (ground arith)),
)

-- When the sources and the files of each source have distinct names, and the protected sources are
-- compared with the mirror without an error, so is the mirror with the protected sources: it has no source
-- or file that they have not.
pub compare_mirror_trees_symm :
    (sources mirror : Dict Tree)
    → Nodup (keys sources)
    → Nodup (keys mirror)
    → all tree_distinct sources ≡ true
    → all tree_distinct mirror ≡ true
    → compare_mirror_trees sources mirror ≡ ok tt
    → compare_mirror_trees mirror sources ≡ ok tt
unfolding compare_mirror_trees ◌>>◌
compare_mirror_trees_symm sources mirror ns nm ds dm h =
    refuse_elim (not (eqb (length sources) (length mirror))) source_count_differs _ h
      λ count compared.
        let size : length sources ≡ length mirror = ground (arith, count) in
        let back : all (has_match same_tree sources) mirror ≡ true =
          has_match_symm same_tree sources mirror ns nm size
            (λ k v w i j e.
              same_tree_symm v w (all-mem tree_distinct sources ds (k, v) i)
                (all-mem tree_distinct mirror dm (k, w) j) e)
            ((for_each-compare_source mirror sources).0 compared) in
        let checked = (for_each-compare_source sources mirror).1 back in
        let same_size : eqb (length mirror) (length sources) ≡ true = ground (arith, size) in
        rw (same_size, checked) refl

ensure_file-kept :
    (source_files files : Tree)
    → all (has_match same_file source_files) files ≡ true
    → for_each (ensure_file source_files) tt files ≡ ok tt
unfolding for_each all ensure_file ◌>>=◌
ensure_file-kept source_files [] h = refl
ensure_file-kept source_files ((relative, file) ∷ es) h =
    let one : has_match same_file source_files (relative, file) ≡ true = ground (arith, h) in
    let rest = ensure_file-kept source_files es (ground (arith, h)) in
    elim (Bool-cases (immutable file.kind)) [ inl i ↦ rw (i, one) rest | inr i ↦ rw i rest ]

ensure_source-kept :
    (sources mirror : Dict Tree)
    → all (has_match same_tree sources) mirror ≡ true
    → for_each (ensure_source sources) tt mirror ≡ ok tt
unfolding for_each all ensure_source ◌>>=◌
ensure_source-kept sources [] h = refl
ensure_source-kept sources ((source_id, files) ∷ es) h =
    let one : has_match same_tree sources (source_id, files) ≡ true = ground (arith, h) in
    let rest = ensure_source-kept sources es (ground (arith, h)) in
    elim (Option-cases (lookup source_id sources)) [
      | inl n ↦ absurd (ground (arith, n, one))
      | inr (found, s) ↦
          let kept = ensure_file-kept found files (ground (arith, s, one)) in rw (s, kept) rest
    ]

-- When the sources and the files of each source have distinct names, and the protected sources are
-- compared with the mirror without an error, no immutable file of the mirror is refused as changed when
-- the same sources are replicated again.
pub ensure_mirror_immutables_unchanged-compared :
    (sources mirror : Dict Tree)
    → Nodup (keys sources)
    → Nodup (keys mirror)
    → all tree_distinct sources ≡ true
    → all tree_distinct mirror ≡ true
    → compare_mirror_trees sources mirror ≡ ok tt
    → ensure_mirror_immutables_unchanged sources mirror ≡ ok tt
unfolding compare_mirror_trees ensure_mirror_immutables_unchanged ◌>>◌
ensure_mirror_immutables_unchanged-compared sources mirror ns nm ds dm h =
    let back : compare_mirror_trees mirror sources ≡ ok tt =
      compare_mirror_trees_symm sources mirror ns nm ds dm h in
    refuse_elim (not (eqb (length mirror) (length sources))) source_count_differs _ back
      λ count compared.
        ensure_source-kept sources mirror ((for_each-compare_source sources mirror).0 compared)
