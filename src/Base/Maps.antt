-- ===== src/Base/Maps.antt =====
-- Go maps as association lists, and sets (`map[string]struct{}`) as lists of keys. The order of the
-- list is the order in which `range` visits the map, which Go leaves open: theorems hold for each.
use mathlib.Core.Path.{◌≡◌, refl, sym}
use mathlib.Core.Bool.{Bool, true, false, ◌||◌, Bool-set}
use mathlib.Core.Logic.{inl, inr}
use mathlib.Core.Logic.Or
use mathlib.Core.Option.{Option, none, some}
use mathlib.Core.List.{
  List, [], ◌∷◌, map, Mem, not-mem-nil, mem-cons, mem-cons_self, mem-cons_of_mem,
}
use native.Mathlib.Omega.{arith}
use unlock_catalog_publisher.Base.Tests.{if◌then◌else◌, Bool-cases}
use unlock_catalog_publisher.Base.Text.{Bytes, ◌==◌, ==_iff}

-- `_, ok := set[k]`
unfoldable pub contains : Bytes → List Bytes → Bool
contains k [] = false
contains k (x ∷ xs) = x == k || contains k xs

abbrev pub Dict {ℓ} : Type ℓ → Type ℓ
Dict V = List (Bytes × V)

module _ {ℓ} {V : Type ℓ} where
  -- `v, ok := m[k]`
  unfoldable pub lookup : Bytes → Dict V → Option V
  lookup key [] = none
  lookup key ((found, value) ∷ rest) = if found == key then some value else lookup key rest

  abbrev pub keys : Dict V → List Bytes
  keys = map λ e. e.0

  abbrev pub values : Dict V → List V
  values = map λ e. e.1

  -- `_, ok := m[k]`
  unfoldable pub has_key : Bytes → Dict V → Bool
  has_key k m = elim (lookup k m) [ none ↦ false | some v ↦ true ]

  -- `m[k] = v`: the place of a key that is there stays the same.
  unfoldable pub insert : Bytes → V → Dict V → Dict V
  insert key new [] = (key, new) ∷ []
  insert key new ((found, value) ∷ rest) =
      if found == key then (key, new) ∷ rest else (found, value) ∷ insert key new rest

  -- Reading after writing.
  pub lookup-insert :
      (written read : Bytes) (new : V) (entries : Dict V)
      → lookup read (insert written new entries)
        ≡ (if written == read then some new else lookup read entries)
  unfolding lookup insert
  lookup-insert written read new [] = refl
  lookup-insert written read new ((found, value) ∷ rest) = ground (
    arith,
    lookup-insert written read new rest,
    ==_iff written read,
    ==_iff found written,
    ==_iff found read,
  )

  pub has_key-contains : (k : Bytes) (m : Dict V) → has_key k m ≡ contains k (keys m)
  unfolding has_key lookup contains
  has_key-contains k [] = refl
  has_key-contains k ((j, v) ∷ m) = ground (arith, has_key-contains k m)

pub contains-mem : (k : Bytes) (xs : List Bytes) → contains k xs ≡ true → Mem k xs
unfolding contains
contains-mem k [] h = cc
contains-mem k (x ∷ xs) h = elim (Bool-cases (x == k)) [
  | inl e ↦ rw ((==_iff x k).0 e) mem-cons_self
  | inr e ↦ mem-cons_of_mem x (contains-mem k xs (ground arith))
]

pub mem-contains : (k : Bytes) (xs : List Bytes) → Mem k xs → contains k xs ≡ true
unfolding contains
mem-contains k [] m = absurd (not-mem-nil m)
mem-contains k (x ∷ xs) m =
    Or.elim (Bool-set _ _) (mem-cons.0 m) (λ (e : k ≡ x). ground (arith, (==_iff x k).1 (sym e)))
      (λ (i : Mem k xs). ground (arith, mem-contains k xs i))
