-- ===== src/Base/Sort.antt =====
-- `sort.Slice` by a string key, and `sort.Strings`. Go leaves the order of equal keys open; the
-- model keeps it. Also filters by a Boolean test, and what permutations of the input change.
use mathlib.Core.Path.{◌≡◌, refl, ap, subst, subst₂, ◌∙◌}
use mathlib.Core.Bool.{Bool, true, false}
use mathlib.Core.Logic.{◌⊎◌, inl, inr, ∥∥₁_elim}
use mathlib.Core.List.{List, [], ◌∷◌, map, Perm, Permᴰ, Perm-prop}
use mathlib.Core.List.Perm
use unlock_catalog_publisher.Base.Tests.{if◌then◌else◌, Bool-cases}
use unlock_catalog_publisher.Base.Text.{Bytes, less, less_irrefl, less_trans}

module _ {ℓ} {A : Type ℓ} (key : A → Bytes) where
  insert_by : A → List A → List A
  insert_by x [] = x ∷ []
  insert_by x (y ∷ ys) = if less (key y) (key x) then y ∷ insert_by x ys else x ∷ y ∷ ys

  unfoldable pub sort_by : List A → List A
  unfolding insert_by
  sort_by [] = []
  sort_by (x ∷ xs) = insert_by x (sort_by xs)

  -- Neighbours are in order.
  abbrev pub IsSorted : List A → Type 0
  IsSorted [] = Unit
  IsSorted (x ∷ []) = Unit
  IsSorted (x ∷ y ∷ ys) = (less (key y) (key x) ≡ false) × IsSorted (y ∷ ys)

  insert_by-perm : (x : A) (ys : List A) → Perm (insert_by x ys) (x ∷ ys)
  unfolding insert_by
  insert_by-perm x [] = Perm.refl (x ∷ [])
  insert_by-perm x (y ∷ ys) = elim (Bool-cases (less (key y) (key x))) [
    | inl e ↦ rw e (Perm.trans (Perm.cons y (insert_by-perm x ys)) (Perm.swap x y ys))
    | inr e ↦ rw e (Perm.refl (x ∷ y ∷ ys))
  ]

  pub sort_by-perm : (xs : List A) → Perm (sort_by xs) xs
  unfolding sort_by
  sort_by-perm [] = Perm.refl []
  sort_by-perm (x ∷ xs) = Perm.trans (insert_by-perm x (sort_by xs)) (Perm.cons x (sort_by-perm xs))

  less_asym : (s t : Bytes) → less s t ≡ true → less t s ≡ false
  less_asym s t h = elim (Bool-cases (less t s)) [
    | inl e ↦ absurd (cc (less_trans s t s h e, less_irrefl s))
    | inr e ↦ e
  ]

  insert_by-IsSorted : (x : A) (ys : List A) → IsSorted ys → IsSorted (insert_by x ys)
  unfolding insert_by
  insert_by-IsSorted x [] h = tt
  insert_by-IsSorted x (y ∷ []) h = elim (Bool-cases (less (key y) (key x))) [
    | inl e ↦ rw e (less_asym (key y) (key x) e, tt)
    | inr e ↦ rw e (e, tt)
  ]
  insert_by-IsSorted x (y ∷ z ∷ zs) h = elim (Bool-cases (less (key y) (key x))) [
    | inr e ↦ rw e (e, h)
    | inl e ↦ rw e (
        below (less_asym (key y) (key x) e) (Bool-cases (less (key z) (key x)))
          (insert_by-IsSorted x (z ∷ zs) h.1))
  ]
    where
      below :
          less (key x) (key y) ≡ false
          → (less (key z) (key x) ≡ true) ⊎ (less (key z) (key x) ≡ false)
          → IsSorted (insert_by x (z ∷ zs))
          → IsSorted (y ∷ insert_by x (z ∷ zs))
      below xy (inl f) r = rw f (h.0, rw f at r)
      below xy (inr f) r = rw f (xy, (f, h.1))

  pub sort_by-IsSorted : (xs : List A) → IsSorted (sort_by xs)
  unfolding sort_by
  sort_by-IsSorted [] = tt
  sort_by-IsSorted (x ∷ xs) = insert_by-IsSorted x (sort_by xs) (sort_by-IsSorted xs)

  -- A sorted list is left as it is.
  pub sort_by_of_IsSorted : (xs : List A) → IsSorted xs → sort_by xs ≡ xs
  unfolding sort_by
  sort_by_of_IsSorted [] h = refl
  sort_by_of_IsSorted (x ∷ []) h = refl
  sort_by_of_IsSorted (x ∷ y ∷ ys) h = rw (sort_by_of_IsSorted (y ∷ ys) h.1, h.0)

  pub sort_by_idem : (xs : List A) → sort_by (sort_by xs) ≡ sort_by xs
  sort_by_idem xs = sort_by_of_IsSorted (sort_by xs) (sort_by-IsSorted xs)

module _ {ℓ κ} {A : Type ℓ} {B : Type κ} (g : A → B) (key : B → Bytes) where
  insert_by-map :
      (x : A) (ys : List A)
      → insert_by key (g x) (map g ys) ≡ map g (insert_by (λ a. key (g a)) x ys)
  unfolding insert_by
  insert_by-map x [] = refl
  insert_by-map x (y ∷ ys) = elim (Bool-cases (less (key (g y)) (key (g x)))) [
    | inl e ↦ rw (e, insert_by-map x ys)
    | inr e ↦ rw e
  ]

  pub sort_by-map : (xs : List A) → sort_by key (map g xs) ≡ map g (sort_by (λ a. key (g a)) xs)
  unfolding sort_by
  sort_by-map [] = refl
  sort_by-map (x ∷ xs) =
      ap (insert_by key (g x)) (sort_by-map xs) ∙ insert_by-map x (sort_by (λ a. key (g a)) xs)

module _ {ℓ} {A : Type ℓ} (p : A → Bool) where
  abbrev keep_step : A → List A → List A
  keep_step x rest = if p x then x ∷ rest else rest

  -- `if p(x) { out = append(out, x) }` in a loop.
  unfoldable pub keep : List A → List A
  keep [] = []
  keep (x ∷ xs) = keep_step x (keep xs)

  keep_step-perm : (x : A) {r s : List A} → Perm r s → Perm (keep_step x r) (keep_step x s)
  keep_step-perm x h = elim (Bool-cases (p x)) [ inl e ↦ rw e (Perm.cons x h) | inr e ↦ rw e h ]

  keep_step-swap :
      (x y : A) (r : List A) → Perm (keep_step x (keep_step y r)) (keep_step y (keep_step x r))
  keep_step-swap x y r = elim (Bool-cases (p x)) [
    | inr e ↦ rw e (Perm.refl (keep_step y r))
    | inl e ↦ elim (Bool-cases (p y)) [
      | inl f ↦ rw (e, f) (Perm.swap y x r)
      | inr f ↦ rw (e, f) (Perm.refl (x ∷ r))
    ]
  ]

  keep-permᴰ : {xs ys : List A} → Permᴰ xs ys → Perm (keep xs) (keep ys)
  unfolding keep
  keep-permᴰ Permᴰ.nil = Perm.refl []
  keep-permᴰ (Permᴰ.cons {a = a} {l₁ = l₁} {l₂ = l₂} e r) =
      subst (λ c. Perm (keep_step a (keep l₁)) (keep_step c (keep l₂))) e
        (keep_step-perm a (keep-permᴰ r))
  keep-permᴰ (Permᴰ.swap {a = a} {b = b} {l = l} e f) =
      subst₂ (λ c d. Perm (keep_step a (keep_step b (keep l))) (keep_step d (keep_step c (keep l))))
        e f (keep_step-swap a b (keep l))
  keep-permᴰ (Permᴰ.trans r s) = Perm.trans (keep-permᴰ r) (keep-permᴰ s)

  pub keep-perm : {xs ys : List A} → Perm xs ys → Perm (keep xs) (keep ys)
  keep-perm r = ∥∥₁_elim r Perm-prop keep-permᴰ
