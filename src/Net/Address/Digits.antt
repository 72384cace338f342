-- ===== src/Net/Address/Digits.antt =====
-- Decimal numbers as src/appwarrior/net/src/address.cpp prints and reads them.
use slopline.Base.{
  ℕ, zero, suc, ◌+◌, ◌*◌, ◌/◌, ◌%◌, ◌^◌, ◌≤◌, ◌<◌, true, List, [], ◌∷◌, ◌++◌, length, length-append,
  All, All-append, ltb, ltb→le, ltb→lt, lt→ltb, le→ltb, Bool-cases, ◌≡◌, refl, ap, ◌∙◌,
  append_assoc, inl, inr, arith,
}
use slopline.Net.Address.{is_digit}
use slopline.Net.Address.Print.{digit_character, format_digits}
use native.Mathlib.Nat.{pow-suc}

-- The characters of the ten digits.
unfoldable pub IsDigit : ℕ → Type 0
IsDigit c = (b'0' ≤ c) × (c ≤ b'9')

digit_character_lem : (n : ℕ) → n < 10 → digit_character n ≡ b'0' + n
unfolding digit_character
digit_character_lem n h = ground arith

pub is_digit-IsDigit : (c : ℕ) → IsDigit c → is_digit c ≡ true
unfolding is_digit IsDigit
is_digit-IsDigit c h = ground arith

-- The last digit, in front of which is the tenth part.
format_digits_small : (count n : ℕ) → n < 10 → format_digits 10 (suc count) n ≡ (b'0' + n) ∷ []
unfolding format_digits
format_digits_small count n h = rw (lt→ltb n 10 h, digit_character_lem n h) refl

format_digits_large :
    (count n : ℕ)
    → 10 ≤ n
    → format_digits 10 (suc count) n ≡ format_digits 10 count (n / 10) ++ ((b'0' + n % 10) ∷ [])
unfolding format_digits
format_digits_large count n h = rw (le→ltb n 10 h, digit_character_lem (n % 10) (omega arith)) refl

-- A printed number consists of digits.
pub format_digits-IsDigit : (count n : ℕ) → All IsDigit (format_digits 10 count n)
unfolding format_digits IsDigit
format_digits-IsDigit zero n = tt
format_digits-IsDigit (suc count) n = elim (Bool-cases (ltb n 10)) [
  | inl e ↦
      rw (format_digits_small count n (ltb→lt n 10 e))
        ((omega arith, omega (arith, ltb→lt n 10 e)), tt)
  | inr e ↦ rw (format_digits_large count n (ltb→le n 10 e)) (
      All-append IsDigit (format_digits 10 count (n / 10)) ((b'0' + n % 10) ∷ [])
        (format_digits-IsDigit count (n / 10)) ((omega arith, omega arith), tt))
]

-- It has at most the number of digits allowed, and at least one.
pub length-format_digits_le : (count n : ℕ) → length (format_digits 10 count n) ≤ count
unfolding format_digits
length-format_digits_le zero n = omega arith
length-format_digits_le (suc count) n = elim (Bool-cases (ltb n 10)) [
  | inl e ↦ rw (format_digits_small count n (ltb→lt n 10 e)) (omega arith)
  | inr e ↦ rw (format_digits_large count n (ltb→le n 10 e)) (
      omega (
        arith,
        length-append (format_digits 10 count (n / 10)) ((b'0' + n % 10) ∷ []),
        length-format_digits_le count (n / 10),
      ))
]

pub length-format_digits_pos : (count n : ℕ) → 1 ≤ length (format_digits 10 (suc count) n)
length-format_digits_pos count n = elim (Bool-cases (ltb n 10)) [
  | inl e ↦ rw (format_digits_small count n (ltb→lt n 10 e)) (omega arith)
  | inr e ↦
      rw (format_digits_large count n (ltb→le n 10 e))
        (omega (arith, length-append (format_digits 10 count (n / 10)) ((b'0' + n % 10) ∷ [])))
]

-- What is read from the number `value` on. If a digit takes it to ten times the number and the digit,
-- as long as that is at most `bound`, a printed number of at most `bound` takes it from 0 to that
-- number.
module _ {ℓ} {X : Type ℓ} (bound : ℕ) (read : ℕ → List ℕ → X)
    (step : (value digit : ℕ) (rest : List ℕ)
      → digit < 10
      → value * 10 + digit ≤ bound
      → read value ((b'0' + digit) ∷ rest) ≡ read (value * 10 + digit) rest) where
  pub read-format_digits :
      (count n : ℕ) (rest : List ℕ)
      → n < 10 ^ count
      → n ≤ bound
      → read 0 (format_digits 10 count n ++ rest) ≡ read n rest
  unfolding format_digits
  read-format_digits zero n rest h fits = ap (λ (k : ℕ). read k rest) {x = 0} {y = n} (omega arith)
  read-format_digits (suc count) n rest h fits = elim (Bool-cases (ltb n 10)) [
    | inl e ↦ rw (format_digits_small count n (ltb→lt n 10 e)) (
        step 0 n rest (ltb→lt n 10 e) (omega arith)
        ∙ ap (λ (k : ℕ). read k rest) {x = 0 * 10 + n} {y = n} (omega arith))
    | inr e ↦ rw (format_digits_large count n (ltb→le n 10 e)) (
        ap (read 0) (append_assoc (format_digits 10 count (n / 10)) ((b'0' + n % 10) ∷ []) rest)
        ∙ read-format_digits count (n / 10) ((b'0' + n % 10) ∷ rest)
            (omega (arith, pow-suc 10 count)) (omega arith)
        ∙ step (n / 10) (n % 10) rest (omega arith) (omega arith)
        ∙ ap (λ (k : ℕ). read k rest) {x = n / 10 * 10 + n % 10} {y = n} (omega arith))
  ]
