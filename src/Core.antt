-- ===== src/Core.antt =====
-- AppWarrior core (src/appwarrior/core): byte order, bits, errors and identifiers.
pub mod Errors
pub mod Endian
pub mod Sequence
pub mod Ivar
pub mod Bits
pub mod Guid
pub mod Align
