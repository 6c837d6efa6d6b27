-- ===== src/Release/Unmixed.antt =====
-- What `ValidateReleaseChangePaths` accepts (internal/repository/tree.go).
use unlock_catalog_publisher.Base.{
  ◌+◌, ◌≤◌, ◌≡◌, refl, sym, ap, subst, ◌∙◌, Bool, true, false, not, ◌&&◌, List, [], ◌∷◌, ◌++◌,
  Bytes, none, some, arith, length, length-append, length-perm, all, ok, for_each, ok-injective,
  bind_elim, ◌>>◌, Option-cases, inl, inr,
}
use unlock_catalog_publisher.Base.Patterns.{id_pattern}
use unlock_catalog_publisher.Base.Sort.{sort_by, sort_by-perm}
use unlock_catalog_publisher.Release.Paths.{is_unsafe, valid_release_path_shape}
use unlock_catalog_publisher.Release.Changes.{
  release_path, add_change, settle, validate_release_change_paths,
}

-- The path of a file of a release.
abbrev pub of_release : Bytes → Bool
of_release path = elim (release_path path) [
  | none ↦ false
  | some (source_id, relative) ↦ id_pattern source_id && valid_release_path_shape relative
]

-- A path outside the trees of the sources.
abbrev pub outside : Bytes → Bool
outside path = elim (release_path path) [ none ↦ true | some found ↦ false ]

add_change-ok :
    (r : Bool) (ps : List Bytes) (path : Bytes) (t : Bool × List Bytes)
    → add_change (r, ps) path ≡ ok t
    → (is_unsafe path ≡ false)
      × (length ps ≤ length (t.1))
      × (r ≡ true → t.0 ≡ true)
      × (length (t.1) ≤ length ps → of_release path ≡ true)
      × (t.0 ≡ false → outside path ≡ true)
unfolding add_change ◌>>◌
add_change-ok r ps path t h = elim (Option-cases (release_path path)) [
  | inl n ↦
      let out : t ≡ (r, ps ++ path ∷ []) = ground arith in
      let longer : length (t.1) ≡ length ps + 1 =
        ap (λ (s : Bool × List Bytes). length (s.1)) out ∙ length-append ps (path ∷ []) in
      (
        ground arith,
        omega (arith, longer),
        ground arith,
        λ short. absurd (omega (arith, longer, short)),
        ground arith,
      )
  | inr (found, s) ↦ (ground arith, ground arith, ground arith, ground arith, ground arith)
]

loop-ok :
    (changed : List Bytes) (r : Bool) (ps : List Bytes) {t : Bool × List Bytes}
    → for_each add_change (r, ps) changed ≡ ok t
    → (all (λ p. not (is_unsafe p)) changed ≡ true)
      × (length ps ≤ length (t.1))
      × (r ≡ true → t.0 ≡ true)
      × (length (t.1) ≤ length ps → all of_release changed ≡ true)
      × (t.0 ≡ false → all outside changed ≡ true)
unfolding for_each all
loop-ok [] r ps {t} h =
    let same : (r, ps) ≡ t = ok-injective h in
    subst
      (λ t.
        (true ≡ true)
        × (length ps ≤ length (t.1))
        × (r ≡ true → t.0 ≡ true)
        × (length (t.1) ≤ length ps → true ≡ true)
        × (t.0 ≡ false → true ≡ true))
      same (refl, omega arith, (λ e. e), (λ _. refl), (λ _. refl))
loop-ok (path ∷ changed) r ps {t} h = bind_elim _ _ h λ s first rest.
    let (a, b, c, d, e) = add_change-ok r ps path s first in
    let (a', b', c', d', e') = loop-ok changed (s.0) (s.1) rest in
    (
      ground arith,
      omega (arith, b, b'),
      (λ i. c' (c i)),
      (λ short.
          let here = d (omega (arith, b', short)) in
          let there = d' (omega (arith, b, short)) in ground arith),
      (λ none_changed. ground (arith, e, e', c')),
    )

settle-ok :
    (r : Bool) (sorted : List Bytes) {b : Bool}
    → settle r sorted ≡ ok b
    → (b ≡ r) × (r ≡ true → length sorted ≡ 0)
unfolding settle
settle-ok r [] h = (sym (ok-injective h), λ e. refl)
settle-ok r (p ∷ ps) h = (ground arith, ground arith)

-- An accepted change is safe in each path; when it is a release, each path is a file of a release, and
-- when it is not, none is in the tree of a source.
pub validate_release_change_paths-IsUnmixed :
    (changed : List Bytes) {released : Bool}
    → validate_release_change_paths changed ≡ ok released
    → (all (λ p. not (is_unsafe p)) changed ≡ true)
      × (released ≡ true → all of_release changed ≡ true)
      × (released ≡ false → all outside changed ≡ true)
unfolding validate_release_change_paths
validate_release_change_paths-IsUnmixed changed h = bind_elim _ _ h λ s loop last.
    let (safe, _, _, d, e) = loop-ok changed false [] loop in
    let (same, quiet) = settle-ok (s.0) (sort_by (λ p. p) (s.1)) last in
    (
      safe,
      (λ yes.
          let n = quiet (sym same ∙ yes) in
          d (omega (arith, n, length-perm (sort_by-perm (λ (p : Bytes). p) (s.1))))),
      (λ no. e (sym same ∙ no)),
    )
