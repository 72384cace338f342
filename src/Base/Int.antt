-- ===== src/Base/Int.antt =====
-- Signed integers, and `std::int32_t` as the two's complement of an unsigned word.
use Prim.Native.Nat.{ℕ, ◌+◌, ◌-◌, ◌%◌, ◌<◌}
use mathlib.Core.Path.{◌≡◌, ap}
use native.Mathlib.Omega.{arith}
use native.Mathlib.Nat.{mod-eq_of_lt}
use slopline.Base.Tests.{ltb, lt→ltb, le→ltb, if◌then◌else◌}

-- `negsuc n` is -(n + 1).
pub data ℤ : Type 0 where
  pos : ℕ → ℤ
  negsuc : ℕ → ℤ

-- -2^(w-1) ≤ a < 2^(w-1).
abbrev pub IsInt : ℕ → ℤ → Type 0
IsInt half (pos n) = n < half
IsInt half (negsuc n) = n < half

-- `static_cast` between a signed type of `2 ^ w` values and the unsigned one.
abbrev pub to_word : ℕ → ℤ → ℕ
to_word modulus (pos n) = n % modulus
to_word modulus (negsuc n) = modulus - 1 - n % modulus

pub of_word : ℕ → ℕ → ℤ
of_word half u = if ltb u half then pos u else negsuc (half + half - 1 - u)

pub of_word-to_word : (half : ℕ) (a : ℤ) → IsInt half a → of_word half (to_word (half + half) a) ≡ a
unfolding of_word
of_word-to_word half (pos n) h =
    rw (mod-eq_of_lt {n = n} {m = half + half} (omega arith), lt→ltb n half h)
of_word-to_word half (negsuc n) h =
    rw
      (
        mod-eq_of_lt {n = n} {m = half + half} (omega arith),
        le→ltb (half + half - 1 - n) half (omega arith),
      )
      (ap negsuc (omega arith))
