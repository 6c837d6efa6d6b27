-- ===== src/Policy/Revocations.antt =====
-- `validateRevocations` (internal/policy/validate.go).
use unlock_catalog_publisher.Base.{
  true, false, not, ◌||◌, List, [], ◌∷◌, Bytes, codes, eqb, ltb, contains, Result, ok, ◌>>◌, ◌>>=◌,
  refuse, for_each, ◌==◌,
}
use unlock_catalog_publisher.Base.Paths.{is_blank}
use unlock_catalog_publisher.Base.Patterns.{digest_pattern}
use unlock_catalog_publisher.Catalog.Types.{Source, Revocation}
use unlock_catalog_publisher.Policy.Types.{
  PolicyError, valid_id, invalid_revocation, duplicate_revocation, invalid_revocation_target,
  invalid_digest_target, invalid_revocation_kind,
}

-- The `switch revocation.Kind`.
unfoldable pub check_target : Revocation → Result PolicyError (Unit {0})
check_target revocation =
    let kind = revocation.kind in
    elim (kind == codes "entry"
      || kind == codes "artifact"
      || kind == codes "engine"
      || kind == codes "key") [
        | true ↦ refuse (not (valid_id revocation.target_id)) invalid_revocation_target
        | false ↦ elim (kind == codes "digest") [
          | true ↦ refuse (not (digest_pattern revocation.target_id)) invalid_digest_target
          | false ↦ refuse true invalid_revocation_kind
        ]
      ]

-- The body of the loop; it writes `seen`.
unfoldable pub validate_revocation :
    Source → List Bytes → Revocation → Result PolicyError (List Bytes)
unfolding check_target
validate_revocation source seen revocation = do
  refuse
      (not (valid_id revocation.revocation_id)
        || eqb revocation.version 0
        || ltb source.version revocation.version
        || is_blank revocation.reason)
      invalid_revocation
  refuse (contains revocation.revocation_id seen) duplicate_revocation
  check_target revocation
  ok (revocation.revocation_id ∷ seen)

unfoldable pub validate_revocations : Source → Result PolicyError (Unit {0})
unfolding validate_revocation
validate_revocations source = do
  seen ← for_each (validate_revocation source) [] source.revocations
  ok tt
