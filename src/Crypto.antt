-- ===== src/Crypto.antt =====
-- internal/crypto: Base58, the packet cipher, and the key pairs with their files.
pub mod Base58
pub mod Cipher
pub mod Hex
pub mod Keys
pub mod Standins
