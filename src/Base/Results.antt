-- ===== src/Base/Results.antt =====
-- Fallible code: a Go function that returns `(T, error)` or `error`. Each component has its own
-- type of errors, a constructor for each `fmt.Errorf`; an error that wraps another holds it.
use mathlib.Core.Path.{◌≡◌, refl, subst}
use mathlib.Core.Bool.{Bool, true, false}
use mathlib.Core.Logic.{◌↔◌, ◌⊎◌, inl, inr}
use mathlib.Core.Option.{Option, none, some}
use mathlib.Core.List.{List, [], ◌∷◌}

pub data Result {ℓ κ} (E : Type ℓ) (A : Type κ) : Type (ℓ ⊔ κ) where
  err : E → Result E A
  ok : A → Result E A

infixl 5 ◌>>=◌ ◌>>◌
unfoldable pub ◌>>=◌ {ℓ κ μ} :
    {E : Type ℓ} {A : Type κ} {B : Type μ} → Result E A → (A → Result E B) → Result E B
err failure >>= next = err failure
ok value >>= next = next value

unfoldable pub ◌>>◌ {ℓ κ} :
    {E : Type ℓ} {B : Type κ} → Result E (Unit {0}) → Result E B → Result E B
err failure >> next = err failure
ok _ >> next = next

module _ {ℓ} {E : Type ℓ} where
  -- `if bad { return e }`
  abbrev pub refuse : Bool → E → Result E (Unit {0})
  refuse true e = err e
  refuse false e = ok tt

  -- `x, ok := …; if !ok { return e }`
  abbrev pub or_fail {κ} : {A : Type κ} → Option A → E → Result E A
  or_fail none e = err e
  or_fail (some a) e = ok a

-- `fmt.Errorf("…: %w", err)`
abbrev pub wrap {ℓ κ μ} : {E : Type ℓ} {F : Type κ} {A : Type μ} → (E → F) → Result E A → Result F A
wrap f (ok a) = ok a
wrap f (err e) = err (f e)

-- `for _, x := range xs { … }` over the variables `s` that the body writes.
unfoldable pub for_each {ℓ κ μ} :
    {E : Type ℓ} {S : Type κ} {X : Type μ} → (S → X → Result E S) → S → List X → Result E S
for_each body s [] = ok s
for_each body s (x ∷ xs) = body s x >>= λ s'. for_each body s' xs

module _ {ℓ κ μ} {E : Type ℓ} {A : Type κ} {B : Type μ} where
  -- A bind succeeds when both of its parts do.
  pub >>=-eq-ok :
      (m : Result E A) (f : A → Result E B) {b : B}
      → (m >>= f) ≡ ok b
      → (a : A) × (m ≡ ok a) × (f a ≡ ok b)
  unfolding ◌>>=◌ ◌>>◌
  >>=-eq-ok (ok a) f h = (a, refl, h)
  >>=-eq-ok (err e) f h = cc

pub ok-injective {ℓ κ} :
    {E : Type ℓ} {A : Type κ} {a b : A} → ◌≡◌ {A = Result E A} (ok a) (ok b) → a ≡ b
ok-injective h = cc

pub some-injective {ℓ} : {A : Type ℓ} {a b : A} → some a ≡ some b → a ≡ b
some-injective h = cc

pub refuse_iff {ℓ κ} :
    {E : Type ℓ} {B : Type κ} (bad : Bool) (e : E) (k : Result E B) (b : B)
    → ((refuse bad e >> k) ≡ ok b) ↔ ((bad ≡ false) × (k ≡ ok b))
unfolding ◌>>=◌ ◌>>◌
refuse_iff true e k b = (λ h. cc, λ h. cc (h.0))
refuse_iff false e k b = (λ h. (refl, h), λ h. h.1)

pub refuse-eq-ok {ℓ} : {E : Type ℓ} (bad : Bool) (e : E) → refuse bad e ≡ ok tt → bad ≡ false
refuse-eq-ok true e h = absurd (cc)
refuse-eq-ok false e h = refl

pub or_fail-eq-ok {ℓ κ} :
    {E : Type ℓ} {A : Type κ} (o : Option A) (e : E) {a : A} → or_fail o e ≡ ok a → o ≡ some a
or_fail-eq-ok none e h = absurd (cc)
or_fail-eq-ok (some x) e h = cc

pub wrap-eq-ok {ℓ κ μ} :
    {E : Type ℓ} {F : Type κ} {A : Type μ} (f : E → F) (m : Result E A) {a : A}
    → wrap f m ≡ ok a
    → m ≡ ok a
wrap-eq-ok f (ok x) h = cc
wrap-eq-ok f (err e) h = cc

pub Result-cases {ℓ κ} :
    {E : Type ℓ} {A : Type κ} (m : Result E A) → ((a : A) × (m ≡ ok a)) ⊎ ((e : E) × (m ≡ err e))
Result-cases (ok a) = inl (a, refl)
Result-cases (err e) = inr (e, refl)

module _ {ℓ κ μ ν} {E : Type ℓ} {S : Type κ} {X : Type μ} (body : S → X → Result E S)
    (I : S → Type ν) where
  -- An invariant of the body holds after a loop that ends without an error.
  pub for_each-invariant :
      ((s : S) (x : X) (t : S) → I s → body s x ≡ ok t → I t)
      → (xs : List X) (s : S) {t : S} → I s
      → for_each body s xs ≡ ok t
      → I t
  unfolding for_each
  for_each-invariant step [] s i h = subst I (ok-injective h) i
  for_each-invariant step (x ∷ xs) s i h =
      let (s', first, rest) = >>=-eq-ok (body s x) (λ s'. for_each body s' xs) h in
      for_each-invariant step xs s' (step s x s' i first) rest

-- To read what a `do` block that succeeded has gone through, a line at a time. The values come as
-- variables, so that terms stay small.
module _ {ℓ κ μ} {E : Type ℓ} {B : Type κ} {C : Type μ} {b : B} where
  pub bind_elim {ν} :
      {A : Type ν} (m : Result E A) (f : A → Result E B)
      → (m >>= f) ≡ ok b
      → ((a : A) → m ≡ ok a → f a ≡ ok b → C)
      → C
  unfolding ◌>>=◌ ◌>>◌
  bind_elim (ok a) f h go = go a refl h
  bind_elim (err e) f h go = absurd (cc)

  pub or_fail_elim {ν} :
      {A : Type ν} (o : Option A) (e : E) (f : A → Result E B)
      → (or_fail o e >>= f) ≡ ok b
      → ((a : A) → o ≡ some a → f a ≡ ok b → C)
      → C
  unfolding ◌>>=◌ ◌>>◌
  or_fail_elim (some a) e f h go = go a refl h
  or_fail_elim none e f h go = absurd (cc)

  pub wrap_elim {ν ξ} :
      {F : Type ν} {A : Type ξ} (w : F → E) (m : Result F A) (f : A → Result E B)
      → (wrap w m >>= f) ≡ ok b
      → ((a : A) → m ≡ ok a → f a ≡ ok b → C)
      → C
  unfolding ◌>>=◌ ◌>>◌
  wrap_elim w (ok a) f h go = go a refl h
  wrap_elim w (err e) f h go = absurd (cc)

pub refuse_elim {ℓ κ μ} :
    {E : Type ℓ} {B : Type κ} {C : Type μ} {b : B} (bad : Bool) (e : E) (k : Result E B)
    → (refuse bad e >> k) ≡ ok b
    → (bad ≡ false → k ≡ ok b → C)
    → C
unfolding ◌>>=◌ ◌>>◌
refuse_elim true e k h go = absurd (cc)
refuse_elim false e k h go = go refl h

module _ {ℓ κ μ} {E : Type ℓ} {B : Type κ} {C : Type μ} {b : B} where
  pub then_elim :
      (m : Result E (Unit {0})) (k : Result E B) → (m >> k) ≡ ok b → (m ≡ ok tt → k ≡ ok b → C) → C
  unfolding ◌>>=◌ ◌>>◌
  then_elim (ok tt) k h go = go refl h
  then_elim (err e) k h go = absurd (cc)

  pub wrap_then_elim {ν} :
      {F : Type ν} (w : F → E) (m : Result F (Unit {0})) (k : Result E B)
      → (wrap w m >> k) ≡ ok b
      → (m ≡ ok tt → k ≡ ok b → C)
      → C
  unfolding ◌>>=◌ ◌>>◌
  wrap_then_elim w (ok tt) k h go = go refl h
  wrap_then_elim w (err e) k h go = absurd (cc)
