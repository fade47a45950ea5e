-- ===== src/Crypto.antt =====
-- apps/trapchat/src/lib/crypto.js: the encryption of messages and the rotation of keys.
pub mod Cipher
pub mod Rotator
