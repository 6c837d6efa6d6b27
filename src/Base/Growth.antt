-- ===== src/Base/Growth.antt =====
-- Loops that fill a map or a set: the keys in the order in which they came, each once.
use mathlib.Core.List.{
  append_assoc, append-nil, Nodup-cons, mem-cons, mem-cons_self, mem-cons_of_mem, perm_middle,
  mem-map_of_mem, not-mem-nil,
}
use mathlib.Core.List.Perm
use mathlib.Core.Logic.Or
use mathlib.Core.Bool.{Bool-set}
use unlock_catalog_publisher.Base.{
  ==_refl, none, Option-cases, all, ◌||◌, Bytes-set, ◌≡◌, refl, sym, ap, ◌∙◌, subst, Bool, true,
  false, some, List, [], ◌∷◌, ◌++◌, Mem, Nodup, Perm, Bytes, Dict, arith, keys, lookup, has_key,
  insert, contains, mem-contains, has_key-contains, Result, ok, for_each, ok-injective, ◌==◌,
  bind_elim, inl, inr, ==_iff, Bool-cases,
}

abbrev pub flat_map {ℓ κ} : {A : Type ℓ} {B : Type κ} → (A → List B) → List A → List B
flat_map f [] = []
flat_map f (x ∷ xs) = f x ++ flat_map f xs

module _ {ℓ} {V : Type ℓ} where
  -- A new key goes to the end.
  pub insert_fresh :
      (k : Bytes) (v : V) (m : Dict V) → has_key k m ≡ false → insert k v m ≡ m ++ (k, v) ∷ []
  unfolding insert has_key lookup
  insert_fresh k v [] h = refl
  insert_fresh k v ((j, w) ∷ m) h = elim (Bool-cases (j == k)) [
    | inl e ↦ absurd (ground arith)
    | inr e ↦ rw e (ap (λ r. (j, w) ∷ r) (insert_fresh k v m (ground arith)))
  ]

  pub keys-append_one :
      (m : Dict V) (k : Bytes) (v : V) → keys (m ++ (k, v) ∷ []) ≡ keys m ++ k ∷ []
  keys-append_one [] k v = refl
  keys-append_one (e ∷ m) k v = ap (λ r. e.0 ∷ r) (keys-append_one m k v)

  pub lookup-mem : (k : Bytes) (m : Dict V) {v : V} → lookup k m ≡ some v → Mem (k, v) m
  unfolding lookup
  lookup-mem k [] h = absurd (cc)
  lookup-mem k ((j, w) ∷ m) {v} h = elim (Bool-cases (j == k)) [
    | inl e ↦ let same : w ≡ v = ground arith in rw (sym ((==_iff j k).0 e), sym same) mem-cons_self
    | inr e ↦ mem-cons_of_mem (j, w) (lookup-mem k m (ground arith))
  ]

  -- Looking up the key of an entry finds the entry, when keys are distinct.
  pub lookup-own :
      (q : V → Bool) (k : Bytes) (w : V) (m : Dict V)
      → Nodup (keys m)
      → Mem (k, w) m
      → elim (lookup k m) [ none ↦ false | some x ↦ q x ] ≡ q w
  unfolding lookup
  lookup-own q k w [] n i = absurd (not-mem-nil i)
  lookup-own q k w ((j, x) ∷ m) n i =
      Or.elim (Bool-set _ _) (mem-cons.0 i)
        (λ (e : (k, w) ≡ (j, x)).
          let keys_same : j ≡ k = sym (ap (λ p. p.0) e) in
          rw ((==_iff j k).1 keys_same) (ap q (sym (ap (λ p. p.1) e))))
        (λ (r : Mem (k, w) m). elim (Bool-cases (j == k)) [
          | inl s ↦ absurd (
              (Nodup-cons.0 n).0 (
                subst (λ l. Mem l (keys m)) (sym ((==_iff j k).0 s))
                  (mem-map_of_mem (λ (e : Bytes × V). e.0) r)))
          | inr s ↦ rw s (lookup-own q k w m (Nodup-cons.0 n).1 r)
        ])

-- The same where values are bytes.
pub lookup-of_mem :
    (k w : Bytes) (m : Dict Bytes) → Nodup (keys m) → Mem (k, w) m → lookup k m ≡ some w
lookup-of_mem k w m n i =
    let hit = lookup-own (λ x. x == w) k w m n i in
    elim (Option-cases (lookup k m)) [
      | inl e ↦ absurd (ground (arith, e, hit, ==_refl w))
      | inr (x, e) ↦
          let same : x == w ≡ true = ground (arith, e, hit, ==_refl w) in
          e ∙ ap some ((==_iff x w).0 same)
    ]

-- `after` is `before` with `added` at its end, and no key comes twice because of it.
abbrev pub Grows : List Bytes → List Bytes → List Bytes → Type 0
Grows before after added = (after ≡ before ++ added) × (Nodup before → Nodup after)

pub Grows-nil : (before : List Bytes) → Grows before before []
Grows-nil before = (sym (append-nil before), λ n. n)

pub Grows-trans :
    {before middle after : List Bytes} (added more : List Bytes)
    → Grows before middle added
    → Grows middle after more
    → Grows before after (added ++ more)
Grows-trans {before} added more (p, n) (q, m) =
    (q ∙ ap (λ l. l ++ more) p ∙ append_assoc before added more, λ d. m (n d))

pub Grows-one :
    (before : List Bytes) (k : Bytes)
    → contains k before ≡ false
    → Grows before (before ++ k ∷ []) (k ∷ [])
Grows-one before k fresh = (
  refl,
  λ n.
      Perm.nodup
        (Perm.symm (
          subst (λ l. Perm (before ++ k ∷ []) (k ∷ l)) (append-nil before) (perm_middle before [])))
        (Nodup-cons.1 (λ m. cc (fresh, mem-contains k before m), n)),
)

-- `m[k] = v` after the test that `k` is new.
pub insert-Grows {ℓ} :
    {V : Type ℓ} (k : Bytes) (v : V) (m : Dict V)
    → has_key k m ≡ false
    → Grows (keys m) (keys (insert k v m)) (k ∷ [])
insert-Grows k v m h =
    let (e, n) = Grows-one (keys m) k (sym (has_key-contains k m) ∙ h) in
    let same = ap keys (insert_fresh k v m h) ∙ keys-append_one m k v in
    (same, λ d. subst Nodup (sym same) (n d))

module _ {ℓ κ μ} {E : Type ℓ} {S : Type κ} {X : Type μ} (body : S → X → Result E S) where
  pub for_each-appends {ν} :
      {A : Type ν} (g : S → List A) (f : X → List A)
      → ((s : S) (x : X) (t : S) → body s x ≡ ok t → g t ≡ g s ++ f x)
      → (xs : List X) (s : S) {t : S} → for_each body s xs ≡ ok t
      → g t ≡ g s ++ flat_map f xs
  unfolding for_each
  for_each-appends g f step [] s h = sym (ap g (ok-injective h)) ∙ sym (append-nil (g s))
  for_each-appends g f step (x ∷ xs) s h = bind_elim _ _ h λ s' first rest.
      for_each-appends g f step xs s' rest
      ∙ ap (λ l. l ++ flat_map f xs) (step s x s' first)
      ∙ append_assoc (g s) (f x) (flat_map f xs)

  pub for_each-Grows :
      (g : S → List Bytes) (f : X → List Bytes)
      → ((s : S) (x : X) (t : S) → body s x ≡ ok t → Grows (g s) (g t) (f x))
      → (xs : List X) (s : S) {t : S} → for_each body s xs ≡ ok t
      → Grows (g s) (g t) (flat_map f xs)
  unfolding for_each
  for_each-Grows g f step [] s h =
      subst (λ r. Grows (g s) (g r) []) (ok-injective h) (Grows-nil (g s))
  for_each-Grows g f step (x ∷ xs) s h = bind_elim _ _ h λ s' first rest.
      Grows-trans (f x) (flat_map f xs) (step s x s' first) (for_each-Grows g f step xs s' rest)

  -- What each pass of the body checks holds of each element, when the loop ends without an error.
  pub for_each-each {ν} :
      (Q : X → Type ν)
      → ((s : S) (x : X) (t : S) → body s x ≡ ok t → Q x)
      → (xs : List X) (s : S) {t : S} → for_each body s xs ≡ ok t
      → (x : X) → Mem x xs
      → IsProp (Q x)
      → Q x
  unfolding for_each
  for_each-each Q step [] s h x m p = absurd (not-mem-nil m)
  for_each-each Q step (y ∷ ys) s h x m p = bind_elim _ _ h λ s' first rest.
      Or.elim p (mem-cons.0 m) (λ (e : x ≡ y). subst Q (sym e) (step s y s' first))
        (λ (i : Mem x ys). for_each-each Q step ys s' rest x i p)

pub mem-one : {x y : Bytes} → Mem x (y ∷ []) → x ≡ y
mem-one m = Or.elim (Bytes-set _ _) (mem-cons.0 m) (λ e. e) (λ n. absurd (not-mem-nil n))

-- A Boolean test that each pass of the body makes.
pub for_each-all {ℓ κ μ} :
    {E : Type ℓ} {S : Type κ} {X : Type μ} (body : S → X → Result E S) (q : X → Bool)
    → ((s : S) (x : X) (t : S) → body s x ≡ ok t → q x ≡ true)
    → (xs : List X) (s : S) {t : S} → for_each body s xs ≡ ok t
    → all q xs ≡ true
unfolding for_each all
for_each-all body q step [] s h = refl
for_each-all body q step (x ∷ xs) s h = bind_elim _ _ h λ s' first rest.
    let one = step s x s' first in let more = for_each-all body q step xs s' rest in ground arith

pub contains-append :
    (k : Bytes) (xs ys : List Bytes) → contains k (xs ++ ys) ≡ contains k xs || contains k ys
unfolding contains
contains-append k [] ys = refl
contains-append k (x ∷ xs) ys = ground (arith, contains-append k xs ys)

module _ {ℓ} {V : Type ℓ} where
  insert_present :
      (k : Bytes) (v : V) (m : Dict V) → has_key k m ≡ true → keys (insert k v m) ≡ keys m
  unfolding insert has_key lookup
  insert_present k v [] h = cc
  insert_present k v ((j, w) ∷ m) h = elim (Bool-cases (j == k)) [
    | inl e ↦ rw e (ap (λ l. l ∷ keys m) (sym ((==_iff j k).0 e)))
    | inr e ↦ rw e (ap (λ l. j ∷ l) (insert_present k v m (ground arith)))
  ]

  -- Writing keeps the keys distinct.
  pub Nodup-keys-insert :
      (k : Bytes) (v : V) (m : Dict V) → Nodup (keys m) → Nodup (keys (insert k v m))
  Nodup-keys-insert k v m n = elim (Bool-cases (has_key k m)) [
    | inl e ↦ subst Nodup (sym (insert_present k v m e)) n
    | inr e ↦ (insert-Grows k v m e).1 n
  ]

-- The pass of the body for one element of the list.
pub for_each-at {ℓ κ μ} :
    {E : Type ℓ} {S : Type κ} {X : Type μ} (body : S → X → Result E S) (before : List X) (x : X)
    (after : List X) (s : S) {t : S}
    → for_each body s (before ++ x ∷ after) ≡ ok t
    → (u : S) × (v : S) × (body u x ≡ ok v)
unfolding for_each
for_each-at body [] x after s h = bind_elim _ _ h λ v first rest. (s, v, first)
for_each-at body (y ∷ before) x after s h =
    bind_elim _ _ h λ u first rest. for_each-at body before x after u rest
