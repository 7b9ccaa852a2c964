-- ===== src/Identity.antt =====
-- crates/identity/src: the addresses that the other crates use as keys.
pub mod RnsAddress
pub mod Encryption
