-- ===== src/Base/Paths/Dir.antt =====
-- `path.Dir`, the walk from a path up to the root of its tree, and where that walk ends.
use unlock_catalog_publisher.Base.{
  ℕ, zero, suc, ◌+◌, ◌≤◌, ◌<◌, ◌≡◌, refl, sym, ap, subst, ◌∙◌, true, false, List, [], ◌∷◌, ◌++◌,
  Bytes, Option, none, some, codes, arith, eqb, all, length, ◌==◌, ==_iff, Bool-cases, inl, inr,
}
use unlock_catalog_publisher.Base.Paths.{split_from, split, join, reverse_onto, is_abs, clean}
use unlock_catalog_publisher.Base.Paths.Split.{
  no_slash, is_name, split_from-at_slash, split_from-other, split-join, split_from-cons,
  join-split_from, clean_parts-names, clean_parts-only_names, reverse_onto-append,
  reverse_onto_twice, reverse_onto-cons, all-reverse_onto, all-no_slash, all-append_empty,
}

-- Without the first element.
abbrev rest_of : List Bytes → List Bytes
rest_of [] = []
rest_of (p ∷ ps) = ps

-- What stands up to the last `/`, that one included, cleaned.
unfoldable pub dir : Bytes → Bytes
unfolding split reverse_onto join clean
dir s = clean (join (reverse_onto ([] ∷ []) (rest_of (reverse_onto [] (split s)))))

-- `for parent := path.Dir(p); parent != "."; parent = path.Dir(parent)`: the parents, the nearest first, or
-- `none` when the fuel runs out.
unfoldable pub ancestors : ℕ → Bytes → Option (List Bytes)
ancestors zero p = none
ancestors (suc fuel) p =
    let found = dir p in
    elim (found == codes ".") [
      | true ↦ some []
      | false ↦ elim (ancestors fuel found) [ none ↦ none | some more ↦ some (found ∷ more) ]
    ]

pub is_abs-join :
    (q : Bytes) (qs : List Bytes)
    → is_name q ≡ true
    → (is_abs (join (q ∷ qs)) ≡ false) × (join (q ∷ qs) == [] ≡ false)
unfolding is_abs join all ◌==◌
is_abs-join [] qs h = absurd (cc)
is_abs-join (c ∷ s) [] h = (ground (arith, h), refl)
is_abs-join (c ∷ s) (r ∷ rs) h = (ground (arith, h), refl)

clean-names :
    (q : Bytes) (qs : List Bytes)
    → all is_name (q ∷ qs) ≡ true
    → clean (join ((q ∷ qs) ++ [] ∷ [])) ≡ join (q ∷ qs)
unfolding clean all
clean-names q qs h =
    let (relative, _) = is_abs-join q (qs ++ [] ∷ []) (ground (arith, h)) in
    let (_, filled) = is_abs-join q qs (ground (arith, h)) in
    let parts =
      split-join q (qs ++ [] ∷ []) (all-append_empty (q ∷ qs) (all-no_slash (q ∷ qs) h)) in
    let kept = clean_parts-names [] (q ∷ qs) h in
    let back = reverse_onto_twice (q ∷ qs) in rw (relative, parts, kept, back, filled) refl

-- A path of names is clean as it is.
pub clean-join :
    (q : Bytes) (qs : List Bytes)
    → all is_name (q ∷ qs) ≡ true
    → clean (join (q ∷ qs)) ≡ join (q ∷ qs)
unfolding clean all
clean-join q qs h =
    let (relative, filled) = is_abs-join q qs (ground (arith, h)) in
    let parts = split-join q qs (all-no_slash (q ∷ qs) h) in
    let kept = clean_parts-only_names [] (q ∷ qs) h in
    let back = reverse_onto_twice (q ∷ qs) in rw (relative, parts, kept, back, filled) refl

-- The path of names that are listed from the last to the first.
abbrev path_of : List Bytes → Bytes
path_of r = join (reverse_onto [] r)

split-path_of :
    (last : Bytes) (before : List Bytes)
    → all is_name (last ∷ before) ≡ true
    → reverse_onto [] (split (path_of (last ∷ before))) ≡ last ∷ before
unfolding all reverse_onto
split-path_of last before h =
    let (q, qs, e) = reverse_onto-cons last [] before in
    let names : all no_slash (reverse_onto (last ∷ []) before) ≡ true =
      all-no_slash (reverse_onto (last ∷ []) before)
        (all-reverse_onto is_name (last ∷ []) before (ground (arith, h)) (ground (arith, h))) in
    ap (λ l. reverse_onto [] (split (join l))) e
    ∙ ap (reverse_onto []) (split-join q qs (subst (λ l. all no_slash l ≡ true) e names) ∙ sym e)
    ∙ reverse_onto_twice (last ∷ before)

dir-path_of :
    (last : Bytes) (before : List Bytes)
    → all is_name (last ∷ before) ≡ true
    → dir (path_of (last ∷ before)) ≡ clean (join (reverse_onto [] before ++ [] ∷ []))
unfolding dir
dir-path_of last before h =
    ap (λ l. clean (join (reverse_onto ([] ∷ []) (rest_of l)))) (split-path_of last before h)
    ∙ ap (λ l. clean (join l)) (reverse_onto-append [] ([] ∷ []) before)

dir-one : (last : Bytes) → is_name last ≡ true → dir (path_of (last ∷ [])) ≡ codes "."
unfolding all reverse_onto clean ◌==◌
dir-one last h = dir-path_of last [] (ground (arith, h)) ∙ refl

dir-more :
    (last q : Bytes) (before : List Bytes)
    → all is_name (last ∷ q ∷ before) ≡ true
    → dir (path_of (last ∷ q ∷ before)) ≡ path_of (q ∷ before)
unfolding all reverse_onto
dir-more last q before h =
    let (p, ps, e) = reverse_onto-cons q [] before in
    let names : all is_name (reverse_onto (q ∷ []) before) ≡ true =
      all-reverse_onto is_name (q ∷ []) before (ground (arith, h)) (ground (arith, h)) in
    dir-path_of last (q ∷ before) h
    ∙ ap (λ l. clean (join (l ++ [] ∷ []))) e
    ∙ clean-names p ps (subst (λ l. all is_name l ≡ true) e names)
    ∙ ap join (sym e)

-- The names `.` and the like are not paths of names.
path_of-ne-dot :
    (q : Bytes) (before : List Bytes)
    → all is_name (q ∷ before) ≡ true
    → path_of (q ∷ before) == codes "." ≡ false
unfolding all split reverse_onto split_from
path_of-ne-dot q before h = elim (Bool-cases (path_of (q ∷ before) == codes ".")) [
  | inr e ↦ e
  | inl e ↦
      let same : path_of (q ∷ before) ≡ codes "." = (==_iff _ _).0 e in
      let parts : reverse_onto [] (split (codes ".")) ≡ q ∷ before =
        ap (λ s. reverse_onto [] (split s)) (sym same) ∙ split-path_of q before h in
      let only : codes "." ≡ q = cc in
      absurd (ground (arith, h, (==_iff q (codes ".")).1 (sym only)))
]

-- The directories above a path of names that are listed from the last to the first.
above : List Bytes → List Bytes
above [] = []
above (last ∷ []) = []
above (last ∷ q ∷ before) = path_of (q ∷ before) ∷ above (q ∷ before)

-- The proper prefixes of a path at its slashes, the longest first.
unfoldable pub parent_paths : Bytes → List Bytes
unfolding above split reverse_onto
parent_paths p = above (reverse_onto [] (split p))

-- The directories above a path of four names.
pub parent_paths-four :
    (a b c d : Bytes)
    → all is_name (a ∷ b ∷ c ∷ d ∷ []) ≡ true
    → parent_paths (join (a ∷ b ∷ c ∷ d ∷ []))
      ≡ join (a ∷ b ∷ c ∷ []) ∷ join (a ∷ b ∷ []) ∷ join (a ∷ []) ∷ []
unfolding parent_paths above reverse_onto
parent_paths-four a b c d h =
    ap (λ l. above (reverse_onto [] l))
      (split-join a (b ∷ c ∷ d ∷ []) (all-no_slash (a ∷ b ∷ c ∷ d ∷ []) h))

ancestors-last : (fuel : ℕ) (p : Bytes) → dir p ≡ codes "." → ancestors (suc fuel) p ≡ some []
unfolding ancestors ◌==◌
ancestors-last fuel p e = rw (e, ancestors) refl

ancestors-next :
    (fuel : ℕ) (p q : Bytes) (more : List Bytes)
    → dir p ≡ q
    → q == codes "." ≡ false
    → ancestors fuel q ≡ some more
    → ancestors (suc fuel) p ≡ some (q ∷ more)
unfolding ancestors
ancestors-next fuel p q more e d h = rw (e, d, e, h, ancestors) (ap (λ x. some (x ∷ more)) e)

ancestors-path_of :
    (fuel : ℕ) (last : Bytes) (before : List Bytes)
    → all is_name (last ∷ before) ≡ true
    → length before < fuel
    → ancestors fuel (path_of (last ∷ before)) ≡ some (above (last ∷ before))
unfolding above all
ancestors-path_of zero last before h short = absurd (omega arith)
ancestors-path_of (suc fuel) last [] h short =
    ancestors-last fuel (path_of (last ∷ [])) (dir-one last (ground (arith, h)))
ancestors-path_of (suc fuel) last (q ∷ before) h short =
    ancestors-next fuel (path_of (last ∷ q ∷ before)) (path_of (q ∷ before)) (above (q ∷ before))
      (dir-more last q before h) (path_of-ne-dot q before (ground (arith, h)))
      (ancestors-path_of fuel q before (ground (arith, h)) (omega arith))

length-split_from : (before s : Bytes) → length (split_from before s) ≤ length s + 1
unfolding split_from
length-split_from before [] = omega arith
length-split_from before (c ∷ s) = elim (Bool-cases (eqb c b'/')) [
  | inl e ↦
      let rest = length-split_from [] s in
      let same = ap length (split_from-at_slash before c s e) in omega (arith, rest, same)
  | inr e ↦
      let rest = length-split_from (before ++ c ∷ []) s in
      let same = ap length (split_from-other before c s e) in omega (arith, rest, same)
]

length-reverse_onto : (out ps : List Bytes) → length (reverse_onto out ps) ≡ length out + length ps
unfolding reverse_onto
length-reverse_onto out [] = omega arith
length-reverse_onto out (p ∷ ps) = omega (arith, length-reverse_onto (p ∷ out) ps)

-- The walk from a path whose elements are names up to the root of its tree passes each directory above it once,
-- and ends: as many steps as the path has bytes, and one more, are enough.
pub ancestors-names :
    (p : Bytes) → all is_name (split p) ≡ true → ancestors (length p + 1) p ≡ some (parent_paths p)
unfolding parent_paths split all
ancestors-names p h =
    let (first, more, e) = split_from-cons [] p in
    let (last, before, r) = reverse_onto-cons first [] more in
    let backward : reverse_onto [] (split p) ≡ last ∷ before = ap (reverse_onto []) e ∙ r in
    let names : all is_name (last ∷ before) ≡ true =
      subst (λ l. all is_name l ≡ true) backward (all-reverse_onto is_name [] (split p) refl h) in
    let whole : path_of (last ∷ before) ≡ p =
      ap path_of (sym backward) ∙ ap join (reverse_onto_twice (split p)) ∙ join-split_from [] p in
    let size : length (last ∷ before) ≡ length (split p) =
      ap length (sym backward) ∙ length-reverse_onto [] (split p) ∙ omega arith in
    let short : length before < length p + 1 = omega (arith, size, length-split_from [] p) in
    ap (ancestors (length p + 1)) (sym whole)
    ∙ ancestors-path_of (length p + 1) last before names short
    ∙ ap (λ l. some (above l)) (sym backward)
