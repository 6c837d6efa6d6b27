-- ===== src/Release.antt =====
-- internal/repository/tree.go: the protected tree of published releases.
pub mod Types
pub mod Paths
pub mod Complete
pub mod Validate
pub mod Disk
pub mod Materialize
pub mod Replace
pub mod Diff
pub mod Changes
pub mod Append
pub mod Reading
pub mod Succession
pub mod History
pub mod Unmixed
pub mod Addressed
pub mod Shapes
pub mod Joined
pub mod Tests
