-- ===== src/History/Revocations.antt =====
-- `validateRevocationHistory` (internal/assemble/assembler.go) and `verifyRevocationsForward`
-- (cmd/catalog-publisher/materialize.go).
use unlock_catalog_publisher.Base.{
  Bool, not, ◌||◌, List, [], Dict, ltb, lookup, has_key, insert, Result, ok, ◌>>=◌, ◌>>◌, refuse,
  or_fail, for_each, ◌==◌,
}
use unlock_catalog_publisher.Catalog.Types.{Revocation}

pub data HistoryError : Type 0 where
  duplicate_revocation_id revocation_removed revocation_weakened : HistoryError

-- The first loop; it writes `currentByID` and `nextByID`.
unfoldable pub index_revocation :
    Dict Revocation → Revocation → Result HistoryError (Dict Revocation)
index_revocation by_id revocation = do
  refuse (has_key revocation.revocation_id by_id) duplicate_revocation_id
  ok (insert revocation.revocation_id revocation by_id)

-- `next.Kind != old.Kind || next.TargetID != old.TargetID || …`
unfoldable pub weakened : Revocation → Revocation → Bool
weakened next old =
    not (next.kind == old.kind)
    || not (next.target_id == old.target_id)
    || not (next.reason == old.reason)
    || ltb next.version old.version

-- The second loop.
unfoldable pub check_revocation :
    Dict Revocation → Unit {0} → Revocation → Result HistoryError (Unit {0})
check_revocation by_id u old = do
  next ← or_fail (lookup old.revocation_id by_id) revocation_removed
  refuse (weakened next old) revocation_weakened

unfoldable pub validate_revocation_history :
    List Revocation → List Revocation → Result HistoryError (Unit {0})
validate_revocation_history current prior = do
  current_by_id ← for_each index_revocation [] current
  for_each (check_revocation current_by_id) tt prior

unfoldable pub verify_revocations_forward :
    List Revocation → List Revocation → Result HistoryError (Unit {0})
verify_revocations_forward prior next = do
  next_by_id ← for_each index_revocation [] next
  for_each (check_revocation next_by_id) tt prior
