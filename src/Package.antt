-- ===== src/Package.antt =====
-- internal/package/package.go: the offline package of a release, a canonical tar archive compressed by
-- zstd.
pub mod Types
pub mod Paths
pub mod Metadata
pub mod Archive
pub mod Verify
pub mod Build
pub mod Table
pub mod Bounds
pub mod Exact
pub mod Canonical
pub mod Written
pub mod RoundTrip
mod Toy
mod Tests
