-- ===== src/Cohort.antt =====
-- internal/cohort/builder.go: the candidate of one source, as it is written for the signer.
pub mod Types
pub mod Sources
pub mod Write
pub mod Build
pub mod ObjectPaths
pub mod Written
pub mod Objects
pub mod Layout
pub mod Checked
pub mod Published
pub mod Accepted
mod Tests
