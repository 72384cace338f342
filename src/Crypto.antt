-- ===== src/Crypto.antt =====
-- src/appwarrior/crypto: the block cipher and the digests.
pub mod Blowfish
pub mod Digest
pub mod Sha1
pub mod Md5
pub mod Hashes
