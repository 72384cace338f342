-- ===== src/Bits/Single.antt =====
-- Single binary digits: what `|`, `&` and `^` do to each of them.
use Prim.Native.Nat.{max}
use slopline.Base.{
  ℕ, zero, suc, ◌+◌, ◌-◌, ◌/◌, ◌%◌, ◌^◌, ◌<◌, min, bit_and, bit_or, bit_xor, ◌≡◌, ◌≢◌, refl, sym,
  ap, ◌∙◌, arith,
}
use slopline.Bits.Digits.{bit_and_digit, bit_or_digit}
use slopline.Bits.Xor.{xor_digit}
use native.Mathlib.Nat.{pow-suc, div-div-eq-div-mul}

-- Digit `q` of `a`, the lowest being digit 0.
abbrev pub digit : ℕ → ℕ → ℕ
digit zero a = a % 2
digit (suc q) a = digit q (a / 2)

pub digit-lt : (q a : ℕ) → digit q a < 2
digit-lt zero a = omega arith
digit-lt (suc q) a = digit-lt q (a / 2)

pub digit-or : (q a b : ℕ) → digit q (bit_or a b) ≡ max (digit q a) (digit q b)
digit-or zero a b = omega (arith, bit_or_digit a b)
digit-or (suc q) a b =
    let half : bit_or a b / 2 ≡ bit_or (a / 2) (b / 2) = omega (arith, bit_or_digit a b) in
    ap (digit q) half ∙ digit-or q (a / 2) (b / 2)

pub digit-and : (q a b : ℕ) → digit q (bit_and a b) ≡ min (digit q a) (digit q b)
digit-and zero a b = omega (arith, bit_and_digit a b)
digit-and (suc q) a b =
    let half : bit_and a b / 2 ≡ bit_and (a / 2) (b / 2) = omega (arith, bit_and_digit a b) in
    ap (digit q) half ∙ digit-and q (a / 2) (b / 2)

pub digit-xor : (q a b : ℕ) → digit q (bit_xor a b) ≡ (digit q a + digit q b) % 2
digit-xor zero a b = omega (arith, xor_digit a b)
digit-xor (suc q) a b =
    let half : bit_xor a b / 2 ≡ bit_xor (a / 2) (b / 2) = omega (arith, xor_digit a b) in
    ap (digit q) half ∙ digit-xor q (a / 2) (b / 2)

pub digit_of_zero : (q : ℕ) → digit q 0 ≡ 0
digit_of_zero zero = refl
digit_of_zero (suc q) = digit_of_zero q

half_pow : (p : ℕ) → 2 ^ suc p / 2 ≡ 2 ^ p
half_pow p = omega (arith, pow-suc 2 p)

pub digit_pow_self : (p : ℕ) → digit p (2 ^ p) ≡ 1
digit_pow_self zero = refl
digit_pow_self (suc p) = ap (digit p) (half_pow p) ∙ digit_pow_self p

pub digit_pow_ne : (q p : ℕ) → q ≢ p → digit q (2 ^ p) ≡ 0
digit_pow_ne zero zero h = absurd (h refl)
digit_pow_ne zero (suc p) h = omega (arith, pow-suc 2 p)
digit_pow_ne (suc q) zero h = digit_of_zero q
digit_pow_ne (suc q) (suc p) h = ap (digit q) (half_pow p) ∙ digit_pow_ne q p (λ e. h (ap suc e))

-- Digit k is what is left of the word behind a shift by k.
pub digit-div : (k a : ℕ) → a / 2 ^ k % 2 ≡ digit k a
digit-div zero a = omega arith
digit-div (suc k) a =
    ap (λ (x : ℕ). x % 2)
      (ap (λ (x : ℕ). a / x) (omega (arith, pow-suc 2 k)) ∙ sym (div-div-eq-div-mul a 2 (2 ^ k)))
    ∙ digit-div k (a / 2)

pub digit_complement : (n k a : ℕ) → k < n → a < 2 ^ n → digit k (2 ^ n - 1 - a) ≡ 1 - digit k a
digit_complement zero k a h below = absurd (omega arith)
digit_complement (suc n) zero a h below = omega (arith, pow-suc 2 n)
digit_complement (suc n) (suc k) a h below =
    ap (digit k) (omega (arith, pow-suc 2 n))
    ∙ digit_complement n k (a / 2) (omega arith) (omega (arith, pow-suc 2 n))
