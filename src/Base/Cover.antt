-- ===== src/Base/Cover.antt =====
-- Counting: distinct members of a list, as many as the list is long, are all of it.
use mathlib.Core.List.{
  Nodup-cons, mem-cons, mem-cons_self, mem-cons_of_mem, exists_perm_cons_of_mem, Mem-prop,
  Perm-prop,
}
use mathlib.Core.List.Perm
use mathlib.Core.Logic.{∥∥₁_elim}
use mathlib.Core.Logic.Or
use unlock_catalog_publisher.Base.{
  ◌≤◌, ◌≡◌, subst, List, [], ◌∷◌, Mem, Nodup, Perm, arith, length, length-perm,
}

module _ {ℓ} {A : Type ℓ} where
  length-nil : (ys : List A) → length ys ≤ 0 → Perm [] ys
  length-nil [] h = Perm.refl []
  length-nil (y ∷ ys) h = absurd (omega arith)

  -- A member of `y ∷ ys` that is not `y` is one of `ys`.
  mem-rest : (x y : A) (ys : List A) → ¬ (x ≡ y) → Mem x (y ∷ ys) → Mem x ys
  mem-rest x y ys ne m =
      Or.elim Mem-prop (mem-cons.0 m) (λ (e : x ≡ y). absurd (ne e)) (λ (i : Mem x ys). i)

  pub cover :
      (xs ys : List A)
      → Nodup xs
      → ((x : A) → Mem x xs → Mem x ys)
      → length ys ≤ length xs
      → Perm xs ys
  cover [] ys n sub short = length-nil ys short
  cover (x ∷ xs) ys n sub short =
      ∥∥₁_elim (exists_perm_cons_of_mem (sub x mem-cons_self)) Perm-prop λ (rest, d).
        let p : Perm ys (x ∷ rest) = ∣ d ∣₁ in
        let inside : (z : A) → Mem z xs → Mem z rest = λ z m.
          mem-rest z x rest (λ e. (Nodup-cons.0 n).0 (subst (λ w. Mem w xs) e m))
            ((Perm.mem_iff p).0 (sub z (mem-cons_of_mem x m))) in
        Perm.trans
          (Perm.cons x (cover xs rest (Nodup-cons.0 n).1 inside (omega (arith, length-perm p))))
          (Perm.symm p)
