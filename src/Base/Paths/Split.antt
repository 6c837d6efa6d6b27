-- ===== src/Base/Paths/Split.antt =====
-- Paths and their elements: splitting and joining, and what cleaning leaves of names.
use mathlib.Core.List.{append-nil, append_assoc}
use unlock_catalog_publisher.Base.{
  ℕ, ◌≡◌, refl, sym, ap, ◌∙◌, Bool, true, false, not, ◌&&◌, List, [], ◌∷◌, ◌++◌, Bytes, codes,
  arith, eqb, all, ◌==◌, Bool-cases, inl, inr,
}
use unlock_catalog_publisher.Base.Paths.{
  split_from, split, join, clean_step, clean_parts, reverse_onto,
}

abbrev pub no_slash : Bytes → Bool
no_slash = all λ c. not (eqb c b'/')

-- An element of a path that names something below it.
abbrev pub is_name : Bytes → Bool
is_name p = not (p == []) && not (p == codes ".") && not (p == codes "..") && no_slash p

pub split_from-at_slash :
    (before : Bytes) (c : ℕ) (s : Bytes)
    → eqb c b'/' ≡ true
    → split_from before (c ∷ s) ≡ before ∷ split_from [] s
unfolding split_from
split_from-at_slash before c s e = rw (e, split_from) refl

pub split_from-other :
    (before : Bytes) (c : ℕ) (s : Bytes)
    → eqb c b'/' ≡ false
    → split_from before (c ∷ s) ≡ split_from (before ++ c ∷ []) s
unfolding split_from
split_from-other before c s e = rw (e, split_from) refl

pub split_from-plain :
    (before p : Bytes) → no_slash p ≡ true → split_from before p ≡ (before ++ p) ∷ []
unfolding split_from all
split_from-plain before [] h = ap (λ l. l ∷ []) (sym (append-nil before))
split_from-plain before (c ∷ p) h =
    split_from-other before c p (ground (arith, h))
    ∙ split_from-plain (before ++ c ∷ []) p (ground (arith, h))
    ∙ ap (λ l. l ∷ []) (append_assoc before (c ∷ []) p)

pub split_from-slash :
    (before p s : Bytes)
    → no_slash p ≡ true
    → split_from before (p ++ b'/' ∷ s) ≡ (before ++ p) ∷ split_from [] s
unfolding split_from all
split_from-slash before [] s h = ap (λ l. l ∷ split_from [] s) (sym (append-nil before))
split_from-slash before (c ∷ p) s h =
    split_from-other before c (p ++ b'/' ∷ s) (ground (arith, h))
    ∙ split_from-slash (before ++ c ∷ []) p s (ground (arith, h))
    ∙ ap (λ l. l ∷ split_from [] s) (append_assoc before (c ∷ []) p)

-- Elements without `/` are found again.
pub split-join :
    (p : Bytes) (ps : List Bytes) → all no_slash (p ∷ ps) ≡ true → split (join (p ∷ ps)) ≡ p ∷ ps
unfolding split join all
split-join p [] h = split_from-plain [] p (ground (arith, h))
split-join p (q ∷ ps) h =
    split_from-slash [] p (join (q ∷ ps)) (ground (arith, h))
    ∙ ap (λ l. p ∷ l) (split-join q ps (ground (arith, h)))

pub no_slash-append_one :
    (xs : Bytes) (d : ℕ) → no_slash xs ≡ true → eqb d b'/' ≡ false → no_slash (xs ++ d ∷ []) ≡ true
unfolding all
no_slash-append_one [] d k e = ground (arith, e)
no_slash-append_one (x ∷ xs) d k e =
    ground (arith, k, no_slash-append_one xs d (ground (arith, k)) e)

pub split_from-no_slash :
    (before s : Bytes) → no_slash before ≡ true → all no_slash (split_from before s) ≡ true
unfolding split_from all
split_from-no_slash before [] h = ground (arith, h)
split_from-no_slash before (c ∷ s) h = elim (Bool-cases (eqb c b'/')) [
  | inl e ↦
      let more = split_from-no_slash [] s refl in
      ap (all no_slash) (split_from-at_slash before c s e) ∙ ground (arith, h, more)
  | inr e ↦
      ap (all no_slash) (split_from-other before c s e)
      ∙ split_from-no_slash (before ++ c ∷ []) s (no_slash-append_one before c h e)
]

pub split_from-cons :
    (before s : Bytes) → (p : Bytes) × (ps : List Bytes) × (split_from before s ≡ p ∷ ps)
unfolding split_from
split_from-cons before [] = (before, [], refl)
split_from-cons before (c ∷ s) = elim (Bool-cases (eqb c b'/')) [
  | inl e ↦ (before, split_from [] s, split_from-at_slash before c s e)
  | inr e ↦
      let (p, ps, h) = split_from-cons (before ++ c ∷ []) s in
      (p, ps, split_from-other before c s e ∙ h)
]

pub join-split_from : (before s : Bytes) → join (split_from before s) ≡ before ++ s
unfolding split_from join
join-split_from before [] = sym (append-nil before)
join-split_from before (c ∷ s) = elim (Bool-cases (eqb c b'/')) [
  | inl e ↦
      let (p, ps, h) = split_from-cons [] s in
      let slash : c ≡ b'/' = ground (arith, e) in
      let whole : before ++ b'/' ∷ join (p ∷ ps) ≡ before ++ b'/' ∷ s =
        ap (λ l. before ++ b'/' ∷ l) (ap join (sym h) ∙ join-split_from [] s) in
      ap join (split_from-at_slash before c s e)
      ∙ ap (λ l. join (before ∷ l)) h
      ∙ whole
      ∙ ap (λ d. before ++ d ∷ s) (sym slash)
  | inr e ↦
      ap join (split_from-other before c s e)
      ∙ join-split_from (before ++ c ∷ []) s
      ∙ append_assoc before (c ∷ []) s
]

pub reverse_onto-reverse_onto :
    (after before ps : List Bytes)
    → reverse_onto after (reverse_onto before ps) ≡ reverse_onto (ps ++ after) before
unfolding reverse_onto
reverse_onto-reverse_onto after before [] = refl
reverse_onto-reverse_onto after before (p ∷ ps) = reverse_onto-reverse_onto after (p ∷ before) ps

pub clean_step-name :
    (out : List Bytes) (p : Bytes) → is_name p ≡ true → clean_step false out p ≡ p ∷ out
unfolding clean_step
clean_step-name [] p h = ground (arith, h)
clean_step-name (last ∷ before) p h = ground (arith, h)

-- Cleaning a list of names, with nothing after the last `/`.
pub clean_parts-names :
    (out ps : List Bytes)
    → all is_name ps ≡ true
    → clean_parts false out (ps ++ [] ∷ []) ≡ reverse_onto out ps
unfolding clean_parts reverse_onto all clean_step ◌==◌
clean_parts-names [] [] h = refl
clean_parts-names (o ∷ out) [] h = refl
clean_parts-names out (p ∷ ps) h =
    let step = clean_step-name out p (ground (arith, h)) in
    ap (λ o. clean_parts false o (ps ++ [] ∷ [])) step
    ∙ clean_parts-names (p ∷ out) ps (ground (arith, h))

pub clean_parts-only_names :
    (out ps : List Bytes) → all is_name ps ≡ true → clean_parts false out ps ≡ reverse_onto out ps
unfolding clean_parts reverse_onto all
clean_parts-only_names out [] h = refl
clean_parts-only_names out (p ∷ ps) h =
    let step = clean_step-name out p (ground (arith, h)) in
    ap (λ o. clean_parts false o ps) step ∙ clean_parts-only_names (p ∷ out) ps (ground (arith, h))

pub reverse_onto-append :
    (out after ps : List Bytes) → reverse_onto (out ++ after) ps ≡ reverse_onto out ps ++ after
unfolding reverse_onto
reverse_onto-append out after [] = refl
reverse_onto-append out after (p ∷ ps) = reverse_onto-append (p ∷ out) after ps

pub reverse_onto_twice : (ps : List Bytes) → reverse_onto [] (reverse_onto [] ps) ≡ ps
unfolding reverse_onto
reverse_onto_twice ps = reverse_onto-reverse_onto [] [] ps ∙ append-nil ps

pub reverse_onto-cons :
    (p : Bytes) (out ps : List Bytes)
    → (q : Bytes) × (qs : List Bytes) × (reverse_onto (p ∷ out) ps ≡ q ∷ qs)
unfolding reverse_onto
reverse_onto-cons p out [] = (p, out, refl)
reverse_onto-cons p out (q ∷ ps) = reverse_onto-cons q (p ∷ out) ps

pub all-reverse_onto :
    (test : Bytes → Bool) (out ps : List Bytes)
    → all test out ≡ true
    → all test ps ≡ true
    → all test (reverse_onto out ps) ≡ true
unfolding reverse_onto all
all-reverse_onto test out [] h k = h
all-reverse_onto test out (p ∷ ps) h k =
    all-reverse_onto test (p ∷ out) ps (ground (arith, h, k)) (ground (arith, k))

pub all-no_slash : (ps : List Bytes) → all is_name ps ≡ true → all no_slash ps ≡ true
unfolding all
all-no_slash [] h = refl
all-no_slash (p ∷ ps) h = ground (arith, h, all-no_slash ps)

pub all-append_empty :
    (ps : List Bytes) → all no_slash ps ≡ true → all no_slash (ps ++ [] ∷ []) ≡ true
unfolding all
all-append_empty [] h = refl
all-append_empty (p ∷ ps) h = ground (arith, h, all-append_empty ps)
