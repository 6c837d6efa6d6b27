-- ===== src/History/Multiset.antt =====
-- `permissionSetsEqual` (internal/assemble/assembler.go) compares multisets.
use mathlib.Core.List.{
  exists_perm_cons_of_mem, Perm-prop, Permᴰ, mem-cons_self, mem-cons_of_mem, mem-map_of_mem,
}
use mathlib.Core.List.Perm
use mathlib.Core.Logic.{∥∥₁_elim}
use native.Mathlib.Nat.{ℕ_set}
use unlock_catalog_publisher.Base.{
  ℕ, zero, suc, ◌+◌, ◌≡◌, refl, sym, ap, subst, ◌∙◌, true, List, [], ◌∷◌, Mem, Perm, Bytes, Dict,
  arith, all, all-mem, values, lookup, lookup-insert, insert, ==_iff, ==_refl, ◌==◌, Bool-cases,
  Option-cases, inl, inr, if◌then◌else◌,
}
use unlock_catalog_publisher.Base.Growth.{lookup-mem}
use unlock_catalog_publisher.Base.Int.{ℤ, pos, negsuc, int_eq, int_eq_iff}
use unlock_catalog_publisher.Catalog.Types.{Permission}
use unlock_catalog_publisher.History.Permissions.{
  up, down, count_of, count_up, count_down, permission_sets_equal,
}

-- How often the permission is in the list.
pub occurrences : Bytes → List Bytes → ℕ
occurrences p [] = 0
occurrences p (x ∷ xs) = let rest = occurrences p xs in if x == p then suc rest else rest

shift : ℕ → ℤ → ℤ
shift zero z = z
shift (suc n) z = shift n (up z)

lower : ℕ → ℤ → ℤ
lower zero z = z
lower (suc n) z = lower n (down z)

count_of-insert :
    (q p : Bytes) (z : ℤ) (counts : Dict ℤ)
    → count_of p (insert q z counts) ≡ (if q == p then z else count_of p counts)
count_of-insert q p z counts = ground (arith, lookup-insert q p z counts)

count_of-count_up :
    (p : Bytes) (xs : List Bytes) (counts : Dict ℤ)
    → count_of p (count_up counts xs) ≡ shift (occurrences p xs) (count_of p counts)
unfolding count_up occurrences shift
count_of-count_up p [] counts = refl
count_of-count_up p (x ∷ xs) counts =
    let step = count_of-count_up p xs (insert x (up (count_of x counts)) counts) in
    let one = count_of-insert x p (up (count_of x counts)) counts in
    elim (Bool-cases (x == p)) [
      | inl e ↦
          let same : x ≡ p = (==_iff x p).0 e in
          let written : count_of p (insert x (up (count_of x counts)) counts)
              ≡ up (count_of p counts) =
            one ∙ rw e (ap (λ y. up (count_of y counts)) same) in
          rw e (step ∙ ap (shift (occurrences p xs)) written)
      | inr e ↦
          let other : count_of p (insert x (up (count_of x counts)) counts) ≡ count_of p counts =
            one ∙ rw e refl in
          rw e (step ∙ ap (shift (occurrences p xs)) other)
    ]

count_of-count_down :
    (p : Bytes) (xs : List Bytes) (counts : Dict ℤ)
    → count_of p (count_down counts xs) ≡ lower (occurrences p xs) (count_of p counts)
unfolding count_down occurrences lower
count_of-count_down p [] counts = refl
count_of-count_down p (x ∷ xs) counts =
    let step = count_of-count_down p xs (insert x (down (count_of x counts)) counts) in
    let one = count_of-insert x p (down (count_of x counts)) counts in
    elim (Bool-cases (x == p)) [
      | inl e ↦
          let same : x ≡ p = (==_iff x p).0 e in
          let written : count_of p (insert x (down (count_of x counts)) counts)
              ≡ down (count_of p counts) =
            one ∙ rw e (ap (λ y. down (count_of y counts)) same) in
          rw e (step ∙ ap (lower (occurrences p xs)) written)
      | inr e ↦
          let other : count_of p (insert x (down (count_of x counts)) counts) ≡ count_of p counts =
            one ∙ rw e refl in
          rw e (step ∙ ap (lower (occurrences p xs)) other)
    ]

shift-pos : (n m : ℕ) → shift n (pos m) ≡ pos (n + m)
unfolding shift
shift-pos zero m = ap pos (omega arith)
shift-pos (suc n) m = shift-pos n (suc m) ∙ ap pos (omega arith)

lower-negsuc : (n m : ℕ) → lower n (negsuc m) ≡ negsuc (n + m)
unfolding lower
lower-negsuc zero m = ap negsuc (omega arith)
lower-negsuc (suc n) m = lower-negsuc n (suc m) ∙ ap negsuc (omega arith)

lower-eq-zero : (n m : ℕ) → lower n (pos m) ≡ pos 0 → m ≡ n
unfolding lower
lower-eq-zero zero m h = cc
lower-eq-zero (suc n) zero h = absurd (cc (lower-negsuc n 0, h))
lower-eq-zero (suc n) (suc m) h = ap suc (lower-eq-zero n m h)

-- Equal counts make a permutation.
occurrences-permᴰ :
    (p : Bytes) {xs ys : List Bytes} → Permᴰ xs ys → occurrences p xs ≡ occurrences p ys
unfolding occurrences
occurrences-permᴰ p Permᴰ.nil = refl
occurrences-permᴰ p (Permᴰ.cons {a = a} {b = b} e d) = ground (arith, occurrences-permᴰ p d, e)
occurrences-permᴰ p (Permᴰ.swap e f) = ground (arith, e, f)
occurrences-permᴰ p (Permᴰ.trans d e) = occurrences-permᴰ p d ∙ occurrences-permᴰ p e

occurrences-perm :
    (p : Bytes) {xs ys : List Bytes} → Perm xs ys → occurrences p xs ≡ occurrences p ys
occurrences-perm p r = ∥∥₁_elim r (ℕ_set _ _) (occurrences-permᴰ p)

mem-of_occurrences : (p : Bytes) (ys : List Bytes) (n : ℕ) → occurrences p ys ≡ suc n → Mem p ys
unfolding occurrences
mem-of_occurrences p [] n h = absurd (omega (arith, h))
mem-of_occurrences p (y ∷ ys) n h = elim (Bool-cases (y == p)) [
  | inl e ↦ subst (λ q. Mem q (y ∷ ys)) ((==_iff y p).0 e) mem-cons_self
  | inr e ↦ mem-cons_of_mem y (mem-of_occurrences p ys n (ground arith))
]

perm-of_occurrences :
    (xs ys : List Bytes) → ((p : Bytes) → occurrences p xs ≡ occurrences p ys) → Perm xs ys
unfolding occurrences
perm-of_occurrences [] [] h = Perm.refl []
perm-of_occurrences [] (y ∷ ys) h =
    let one : 0 ≡ suc (occurrences y ys) = h y ∙ rw (==_refl y) refl in absurd (omega (arith, one))
perm-of_occurrences (x ∷ xs) ys h =
    let one : occurrences x ys ≡ suc (occurrences x xs) = sym (h x) ∙ rw (==_refl x) refl in
    ∥∥₁_elim (exists_perm_cons_of_mem (mem-of_occurrences x ys (occurrences x xs) one)) Perm-prop
      λ (rest, d).
        let same : (p : Bytes) → occurrences p xs ≡ occurrences p rest =
          λ p. let whole = h p ∙ occurrences-permᴰ p d in ground (arith, whole) in
        Perm.trans (Perm.cons x (perm-of_occurrences xs rest same)) (Perm.symm ∣ d ∣₁)

count_of-zero :
    (counts : Dict ℤ) (p : Bytes)
    → all (λ n. int_eq n (pos 0)) (values counts) ≡ true
    → count_of p counts ≡ pos 0
count_of-zero counts p h = elim (Option-cases (lookup p counts)) [
  | inl n ↦ ground (arith, n)
  | inr (z, s) ↦
      let m = mem-map_of_mem (λ (e : Bytes × ℤ). e.1) (lookup-mem p counts s) in
      let zeroed =
        (int_eq_iff z (pos 0)).0 (all-mem (λ n. int_eq n (pos 0)) (values counts) h z m) in
      ground (arith, s, zeroed)
]

-- Sets of permissions that are found equal are permutations of each other: the same permissions, each as
-- often.
pub permission_sets_equal_sound :
    (left right : List Permission) → permission_sets_equal left right ≡ true → Perm left right
unfolding permission_sets_equal lookup
permission_sets_equal_sound left right h = perm-of_occurrences left right λ p.
    let zeroed : all (λ n. int_eq n (pos 0)) (values (count_down (count_up [] left) right)) ≡ true =
      ground arith in
    let n = occurrences p left in
    let raised : count_of p (count_up [] left) ≡ pos n =
      count_of-count_up p left [] ∙ shift-pos n 0 ∙ ap pos (omega arith) in
    let final : lower (occurrences p right) (pos n) ≡ pos 0 =
      ap (lower (occurrences p right)) (sym raised)
      ∙ sym (count_of-count_down p right (count_up [] left))
      ∙ count_of-zero (count_down (count_up [] left) right) p zeroed in
    lower-eq-zero (occurrences p right) n final
