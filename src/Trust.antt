-- ===== src/Trust.antt =====
-- internal/assemble/root.go: 2-of-3 trust roots, the signature threshold, and the bridge from one
-- root to the next.
pub mod Types
pub mod Keys
pub mod Threshold
pub mod Bridge
pub mod Sample
mod Tests
