-- ===== src/Bits/Xor.antt =====
-- Exclusive or at every number: it is its own inverse, and it keeps a width.
use Prim.Native.Nat.{differ}
use slopline.Base.{
  ℕ, zero, suc, ◌+◌, ◌*◌, ◌/◌, ◌%◌, ◌^◌, ◌≤◌, ◌<◌, bit_xor, ◌≡◌, refl, sym, ap, arith, ◌∙◌,
}
use slopline.Bits.Digits.{bit_xor_digit}
use native.Mathlib.Nat.{pow-suc}

differ_of_digits : (x y : ℕ) → x < 2 → y < 2 → differ x y ≡ (x + y) % 2
differ_of_digits zero y h k = omega arith
differ_of_digits (suc zero) zero h k = refl
differ_of_digits (suc zero) (suc zero) h k = refl
differ_of_digits (suc zero) (suc (suc y)) h k = absurd (omega arith)
differ_of_digits (suc (suc x)) y h k = absurd (omega arith)

pub xor_digit : (a b : ℕ) → bit_xor a b ≡ bit_xor (a / 2) (b / 2) * 2 + (a + b) % 2
xor_digit a b =
    omega (arith, bit_xor_digit a b, differ_of_digits (a % 2) (b % 2) (omega arith) (omega arith))

xor_cancel_below : (n a b : ℕ) → a ≤ n → b ≤ n → bit_xor (bit_xor a b) b ≡ a
xor_cancel_below zero zero zero h k = refl
xor_cancel_below zero zero (suc b) h k = absurd (omega arith)
xor_cancel_below zero (suc a) b h k = absurd (omega arith)
xor_cancel_below (suc n) a b h k =
    let half : bit_xor a b / 2 ≡ bit_xor (a / 2) (b / 2) = omega (arith, xor_digit a b) in
    let again : bit_xor (bit_xor a b / 2) (b / 2) ≡ a / 2 =
      ap (λ (t : ℕ). bit_xor t (b / 2)) half
      ∙ xor_cancel_below n (a / 2) (b / 2) (omega arith) (omega arith) in
    omega (arith, xor_digit a b, xor_digit (bit_xor a b) b, again)

-- Twice the same key gives the number back.
pub xor_cancel : (a b : ℕ) → bit_xor (bit_xor a b) b ≡ a
xor_cancel a b = xor_cancel_below (a + b) a b (omega arith) (omega arith)

xor_comm_below : (n a b : ℕ) → a ≤ n → b ≤ n → bit_xor a b ≡ bit_xor b a
xor_comm_below zero zero zero h k = refl
xor_comm_below zero zero (suc b) h k = absurd (omega arith)
xor_comm_below zero (suc a) b h k = absurd (omega arith)
xor_comm_below (suc n) a b h k = omega (
  arith,
  xor_digit a b,
  xor_digit b a,
  xor_comm_below n (a / 2) (b / 2) (omega arith) (omega arith),
)

pub xor_comm : (a b : ℕ) → bit_xor a b ≡ bit_xor b a
xor_comm a b = xor_comm_below (a + b) a b (omega arith) (omega arith)

pub xor_cancel_left : (a b : ℕ) → bit_xor a (bit_xor a b) ≡ b
xor_cancel_left a b =
    xor_comm a (bit_xor a b) ∙ ap (λ (t : ℕ). bit_xor t a) (xor_comm a b) ∙ xor_cancel b a

-- Two numbers of `k` digits give one of `k` digits.
pub xor-lt : (k a b : ℕ) → a < 2 ^ k → b < 2 ^ k → bit_xor a b < 2 ^ k
xor-lt zero zero zero h g = omega arith
xor-lt zero zero (suc b) h g = absurd (omega arith)
xor-lt zero (suc a) b h g = absurd (omega arith)
xor-lt (suc k) a b h g = omega (
  arith,
  xor_digit a b,
  pow-suc 2 k,
  xor-lt k (a / 2) (b / 2) (omega (arith, pow-suc 2 k)) (omega (arith, pow-suc 2 k)),
)

xor_assoc_below :
    (n a b c : ℕ) → a ≤ n → b ≤ n → c ≤ n → bit_xor (bit_xor a b) c ≡ bit_xor a (bit_xor b c)
xor_assoc_below zero zero zero zero h k g = refl
xor_assoc_below zero (suc a) b c h k g = absurd (omega arith)
xor_assoc_below zero zero (suc b) c h k g = absurd (omega arith)
xor_assoc_below zero zero zero (suc c) h k g = absurd (omega arith)
xor_assoc_below (suc n) a b c h k g =
    let left : bit_xor a b / 2 ≡ bit_xor (a / 2) (b / 2) = omega (arith, xor_digit a b) in
    let right : bit_xor b c / 2 ≡ bit_xor (b / 2) (c / 2) = omega (arith, xor_digit b c) in
    let again : bit_xor (bit_xor a b / 2) (c / 2) ≡ bit_xor (a / 2) (bit_xor b c / 2) =
      ap (λ (t : ℕ). bit_xor t (c / 2)) left
      ∙ xor_assoc_below n (a / 2) (b / 2) (c / 2) (omega arith) (omega arith) (omega arith)
      ∙ ap (bit_xor (a / 2)) (sym right) in
    omega (
      arith,
      xor_digit a b,
      xor_digit b c,
      xor_digit (bit_xor a b) c,
      xor_digit a (bit_xor b c),
      again,
    )

pub xor_assoc : (a b c : ℕ) → bit_xor (bit_xor a b) c ≡ bit_xor a (bit_xor b c)
xor_assoc a b c = xor_assoc_below (a + b + c) a b c (omega arith) (omega arith) (omega arith)
