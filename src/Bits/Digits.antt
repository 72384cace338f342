-- ===== src/Bits/Digits.antt =====
-- One equation for the lowest digit of each native bit operation; the native definition is a
-- recursion on digits with the first number for fuel, which is dropped here.
use Prim.Native.Nat.{bitwise, digits, differ, max, bit_and-bitwise, bit_or-bitwise, bit_xor-bitwise}
use slopline.Base.{
  ℕ, zero, suc, ◌+◌, ◌*◌, ◌/◌, ◌%◌, ◌≤◌, min, bit_and, bit_or, bit_xor, ◌≡◌, refl, ap, arith,
}

-- More fuel than the first number changes nothing.
module _ (stop : ℕ → ℕ) (op : ℕ → ℕ → ℕ) where
  enough_fuel :
      (more a b : ℕ)
      → a ≤ more
      → (least : ℕ) → a ≤ least
      → digits stop op more a b ≡ digits stop op least a b
  enough_fuel zero zero b h zero k = refl
  enough_fuel zero zero b h (suc least) k = refl
  enough_fuel (suc more) zero b h zero k = refl
  enough_fuel (suc more) zero b h (suc least) k = refl
  enough_fuel zero (suc a) b h least k = absurd (omega arith)
  enough_fuel (suc more) (suc a) b h zero k = absurd (omega arith)
  enough_fuel (suc more) (suc a) b h (suc least) k =
      ap (λ (t : ℕ). t * 2 + op (suc a % 2) (b % 2))
        (enough_fuel more (suc a / 2) (b / 2) (omega arith) least (omega arith))

  lowest_digit :
      (a b : ℕ)
      → bitwise stop op (suc a) b ≡ bitwise stop op (suc a / 2) (b / 2) * 2 + op (suc a % 2) (b % 2)
  lowest_digit a b =
      ap (λ (t : ℕ). t * 2 + op (suc a % 2) (b % 2))
        (enough_fuel a (suc a / 2) (b / 2) (omega arith) (suc a / 2) (omega arith))

pub bit_and_digit : (a b : ℕ) → bit_and a b ≡ bit_and (a / 2) (b / 2) * 2 + min (a % 2) (b % 2)
bit_and_digit zero b = simp bit_and-bitwise (omega arith)
bit_and_digit (suc a) b = simp bit_and-bitwise (lowest_digit (λ _. 0) min a b)

pub bit_or_digit : (a b : ℕ) → bit_or a b ≡ bit_or (a / 2) (b / 2) * 2 + max (a % 2) (b % 2)
bit_or_digit zero b = simp bit_or-bitwise (omega arith)
bit_or_digit (suc a) b = simp bit_or-bitwise (lowest_digit (λ y. y) max a b)

pub bit_xor_digit : (a b : ℕ) → bit_xor a b ≡ bit_xor (a / 2) (b / 2) * 2 + differ (a % 2) (b % 2)
bit_xor_digit zero b = simp bit_xor-bitwise (ground arith)
bit_xor_digit (suc a) b = simp bit_xor-bitwise (lowest_digit (λ y. y) differ a b)
