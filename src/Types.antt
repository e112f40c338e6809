-- ===== src/Types.antt =====
-- rust/crates/shachain2pc-types/src/lib.rs: the two parties, 48-bit indices and 32-byte values.
pub mod Index
pub mod Value
pub mod IndexText
pub mod ValueText
pub mod Tests
pub mod Hex
