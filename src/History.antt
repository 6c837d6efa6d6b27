-- ===== src/History.antt =====
-- What may change from one published release of a source to the next:
-- `validateRevocationHistory` and `permissionSetsEqual` (internal/assemble/assembler.go),
-- `verifyForwardOnly`, `verifyRevocationsForward` and `verifySignedBytes`
-- (cmd/catalog-publisher/materialize.go).
pub mod Revocations
pub mod Permissions
pub mod Multiset
pub mod Forward
pub mod Order
pub mod Advance
mod Tests
