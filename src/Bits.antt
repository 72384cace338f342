-- ===== src/Bits.antt =====
-- Binary digits: the native `bit_and`, `bit_or` and `bit_xor` as arithmetic.
pub mod Digits
pub mod Fields
pub mod Xor
pub mod Single
