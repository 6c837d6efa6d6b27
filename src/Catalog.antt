-- ===== src/Catalog.antt =====
-- internal/catalogv1/types.go: the data of a catalog, and the canonical order of a manifest.
pub mod Types
pub mod Normalize
pub mod Canonical
pub mod Ordered
mod Tests
