-- ===== src/Crypto.antt =====
-- The wrappers of the OpenSSL calls.
pub mod Gcm
pub mod Sealing
