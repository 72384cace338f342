-- ===== src/Core/Endian.antt =====
-- src/appwarrior/core/include/appwarrior/core/endian.h: integers as bytes. A span of fixed extent
-- is a list of that length; the last clause of each reader is out of the reader's type.
pub mod Laws
use slopline.Base.{
  ℕ, ◌+◌, ◌*◌, ◌/◌, ◌%◌, ◌^◌, ◌<◌, bit_and, bit_or, ◌≡◌, List, [], ◌∷◌, ◌++◌, take, drop, subspan,
}

abbrev pub IsByte : ℕ → Type 0
IsByte b = b < 256

unfoldable pub read_u16be : List ℕ → ℕ
read_u16be (b0 ∷ b1 ∷ _) = bit_or (b0 * 2 ^ 8) b1
read_u16be _ = 0

unfoldable pub read_u32be : List ℕ → ℕ
read_u32be (b0 ∷ b1 ∷ b2 ∷ b3 ∷ _) =
    bit_or (bit_or (bit_or (b0 * 2 ^ 24) (b1 * 2 ^ 16)) (b2 * 2 ^ 8)) b3
read_u32be _ = 0

unfoldable pub read_u64be : List ℕ → ℕ
read_u64be bytes = bit_or (read_u32be (take 4 bytes) * 2 ^ 32) (read_u32be (subspan 4 4 bytes))

unfoldable pub read_u32le : List ℕ → ℕ
read_u32le (b0 ∷ b1 ∷ b2 ∷ b3 ∷ _) =
    bit_or (bit_or (bit_or b0 (b1 * 2 ^ 8)) (b2 * 2 ^ 16)) (b3 * 2 ^ 24)
read_u32le _ = 0

unfoldable pub write_u16be : ℕ → List ℕ
write_u16be value = bit_and (value / 2 ^ 8) 0xff ∷ bit_and value 0xff ∷ []

unfoldable pub write_u32be : ℕ → List ℕ
write_u32be value =
    bit_and (value / 2 ^ 24) 0xff
    ∷ bit_and (value / 2 ^ 16) 0xff
    ∷ bit_and (value / 2 ^ 8) 0xff
    ∷ bit_and value 0xff
    ∷ []

unfoldable pub write_u64be : ℕ → List ℕ
unfolding write_u32be
write_u64be value = write_u32be (value / 2 ^ 32) ++ write_u32be (bit_and value 0xffff_ffff)

unfoldable pub write_u32le : ℕ → List ℕ
write_u32le value =
    bit_and value 0xff
    ∷ bit_and (value / 2 ^ 8) 0xff
    ∷ bit_and (value / 2 ^ 16) 0xff
    ∷ bit_and (value / 2 ^ 24) 0xff
    ∷ []

abbrev pub four_cc : ℕ → ℕ → ℕ → ℕ → ℕ
four_cc c0 c1 c2 c3 = bit_or (bit_or (bit_or (c0 * 2 ^ 24) (c1 * 2 ^ 16)) (c2 * 2 ^ 8)) c3
