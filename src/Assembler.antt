-- ===== src/Assembler.antt =====
-- `Assemble` (internal/assemble/assembler.go): from a candidate and its fragments to a release.
pub mod Steps
pub mod Signed
mod Tests
