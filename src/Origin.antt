-- ===== src/Origin.antt =====
-- internal/repository/origin.go: the comparison of the files that an HTTPS origin serves with the
-- protected tree.
pub mod Types
pub mod Verify
pub mod Delivered
pub mod Targets
pub mod Served
mod Tests
