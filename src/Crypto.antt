-- ===== src/Crypto.antt =====
-- crates/crypto/src: key derivation and authenticated tokens, over a cipher and a MAC that other
-- packages provide.
pub mod Cipher
pub mod Hkdf
pub mod Token
mod Tests
