-- ===== src/Mirror.antt =====
-- internal/repository/mirror.go: the public mirror of the published releases.
pub mod Compare
pub mod Install
pub mod Exact
pub mod Public
mod Tests
