-- ===== src/Signing/Candidate.antt =====
-- internal/signing/candidate.go: what is inspected before a candidate is signed.
pub mod Types
pub mod Reading
pub mod Request
pub mod Tree
pub mod Inspect
pub mod Visited
pub mod Exact
pub mod Held
pub mod Holds
pub mod Tests
