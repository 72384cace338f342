-- ===== src/Core/Bits.antt =====
-- src/appwarrior/core/include/appwarrior/core/bits.h: bits of a buffer, the most significant first.
pub mod Access
use slopline.Base.{
  ℕ, ◌-◌, ◌/◌, ◌^◌, Bool, not, List, ◌==◌, if◌then◌else◌, get_or, set, bit_and, bit_or, bit_xor,
}

-- The place of a bit in its byte: `7U - (index & 7U)`.
abbrev pub place : ℕ → ℕ
place index = 7 - bit_and index 7

unfoldable pub get_bit : List ℕ → ℕ → Bool
get_bit bytes index = not (bit_and (get_or bytes (index / 2 ^ 3) 0 / 2 ^ place index) 1 == 0)

unfoldable pub set_bit : List ℕ → ℕ → List ℕ
set_bit bytes index =
    set bytes (index / 2 ^ 3) (bit_or (get_or bytes (index / 2 ^ 3) 0) (2 ^ place index))

-- `~` on a byte is 255 minus it.
unfoldable pub clear_bit : List ℕ → ℕ → List ℕ
clear_bit bytes index =
    set bytes (index / 2 ^ 3) (bit_and (get_or bytes (index / 2 ^ 3) 0) (255 - 2 ^ place index))

unfoldable pub invert_bit : List ℕ → ℕ → List ℕ
invert_bit bytes index =
    set bytes (index / 2 ^ 3) (bit_xor (get_or bytes (index / 2 ^ 3) 0) (2 ^ place index))

-- The overload with a value.
unfoldable pub put_bit : List ℕ → ℕ → Bool → List ℕ
put_bit bytes index value = if value then set_bit bytes index else clear_bit bytes index
