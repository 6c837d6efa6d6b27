-- ===== src/History/Permissions.antt =====
-- `permissionSetsEqual` (internal/assemble/assembler.go): equal as multisets.
use unlock_catalog_publisher.Base.{
  zero, suc, Bool, ◌&&◌, List, [], ◌∷◌, Dict, none, some, eqb, length, all, values, lookup, insert,
}
use unlock_catalog_publisher.Base.Int.{ℤ, pos, negsuc, int_eq}
use unlock_catalog_publisher.Catalog.Types.{Permission}

-- `counts[p]++` and `counts[p]--` on `int`.
abbrev pub up : ℤ → ℤ
up (pos n) = pos (suc n)
up (negsuc zero) = pos 0
up (negsuc (suc n)) = negsuc n

abbrev pub down : ℤ → ℤ
down (pos zero) = negsuc 0
down (pos (suc n)) = pos n
down (negsuc n) = negsuc (suc n)

-- `counts[p]`, which is 0 for a key that is not there.
abbrev pub count_of : Permission → Dict ℤ → ℤ
count_of p counts = elim (lookup p counts) [ none ↦ pos 0 | some n ↦ n ]

unfoldable pub count_up : Dict ℤ → List Permission → Dict ℤ
count_up counts [] = counts
count_up counts (p ∷ ps) = count_up (insert p (up (count_of p counts)) counts) ps

unfoldable pub count_down : Dict ℤ → List Permission → Dict ℤ
count_down counts [] = counts
count_down counts (p ∷ ps) = count_down (insert p (down (count_of p counts)) counts) ps

unfoldable pub permission_sets_equal : List Permission → List Permission → Bool
permission_sets_equal left right =
    eqb (length left) (length right)
    && all (λ n. int_eq n (pos 0)) (values (count_down (count_up [] left) right))
