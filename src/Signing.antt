-- ===== src/Signing.antt =====
-- internal/signing: how a prepared candidate is signed, and the guard before the fragments are
-- assembled.
pub mod Types
pub mod Provider
pub mod FileProvider
pub mod Fragments
pub mod Signed
pub mod Candidate
mod Tests
