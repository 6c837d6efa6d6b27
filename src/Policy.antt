-- ===== src/Policy.antt =====
-- internal/policy/validate.go: what a source must satisfy before it is published.
pub mod Types
pub mod Entry
pub mod Artifact
pub mod References
pub mod Revocations
pub mod Validate
pub mod Writers
pub mod Components
pub mod Contained
pub mod Resolved
pub mod Tests
