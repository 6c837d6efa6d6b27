-- ===== src/Base/Distinct.antt =====
-- The check that a loop makes with a `seen` set: no key comes twice.
use mathlib.Core.List.{mem-cons, mem-cons_self, mem-cons_of_mem, not-mem-nil, Nodup-cons, Nodup-nil}
use mathlib.Core.Logic.Or
use mathlib.Core.Bool.{Bool-set}
use unlock_catalog_publisher.Base.{
  ◌≡◌, refl, Bool, true, false, not, ◌&&◌, List, [], ◌∷◌, Bytes, arith, contains, ◌==◌, ==_iff,
  ==_refl, ◌↔◌, Mem, Nodup, Bool-cases, inl, inr,
}

-- None of the keys is in `seen`, and no two of them are the same.
unfoldable pub distinct_from : List Bytes → List Bytes → Bool
distinct_from seen [] = true
distinct_from seen (k ∷ ks) = not (contains k seen) && distinct_from (k ∷ seen) ks

abbrev pub distinct : List Bytes → Bool
distinct = distinct_from []

contains-cons_ne :
    (j k : Bytes) (seen : List Bytes)
    → contains j (k ∷ seen) ≡ false
    → ((k == j) ≡ false) × (contains j seen ≡ false)
unfolding contains
contains-cons_ne j k seen h = ground arith

distinct_from_sound :
    (seen ks : List Bytes)
    → distinct_from seen ks ≡ true
    → Nodup ks × ((k : Bytes) → Mem k ks → contains k seen ≡ false)
unfolding distinct_from
distinct_from_sound seen [] h = (Nodup-nil, λ k m. absurd (not-mem-nil m))
distinct_from_sound seen (k ∷ ks) h =
    let (apart, fresh) = distinct_from_sound (k ∷ seen) ks (ground arith) in
    (
      Nodup-cons.1
          ((λ m. absurd (cc ((contains-cons_ne k k seen (fresh k m)).0, ==_refl k))), apart),
      λ j m.
          Or.elim (Bool-set _ _) (mem-cons.0 m) (λ e. rw e (ground arith))
            (λ i. (contains-cons_ne j k seen (fresh j i)).1),
    )

-- A key other than `k`, and not in `seen`, is not in `seen` with `k`.
contains-cons_fresh :
    (j k : Bytes) (seen ks : List Bytes)
    → ¬ Mem k ks
    → Mem j ks
    → contains j seen ≡ false
    → contains j (k ∷ seen) ≡ false
unfolding contains
contains-cons_fresh j k seen ks apart m h = elim (Bool-cases (k == j)) [
  | inl e ↦ absurd (apart (rw ((==_iff k j).0 e) m))
  | inr e ↦ rw e h
]

distinct_from_complete :
    (seen ks : List Bytes)
    → Nodup ks
    → ((k : Bytes) → Mem k ks → contains k seen ≡ false)
    → distinct_from seen ks ≡ true
unfolding distinct_from
distinct_from_complete seen [] n h = refl
distinct_from_complete seen (k ∷ ks) n h = ground (
  arith,
  h k mem-cons_self,
  distinct_from_complete (k ∷ seen) ks (Nodup-cons.0 n).1 (λ (j : Bytes) (m : Mem j ks).
      contains-cons_fresh j k seen ks (Nodup-cons.0 n).0 m (h j (mem-cons_of_mem k m))),
)

pub distinct_iff : (ks : List Bytes) → (distinct ks ≡ true) ↔ Nodup ks
unfolding contains
distinct_iff ks =
    ((λ h. (distinct_from_sound [] ks h).0), (λ n. distinct_from_complete [] ks n (λ k m. refl)))
