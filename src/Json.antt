-- ===== src/Json.antt =====
-- The checks of JSON documents that reading and writing them does not make (internal/package/package.go and
-- internal/signing/candidate.go).
pub mod Walk
pub mod Values
pub mod Unique
pub mod Complete
pub mod Ends
mod Tests
