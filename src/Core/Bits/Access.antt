-- ===== src/Core/Bits/Access.antt =====
-- src/appwarrior/core/include/appwarrior/core/bits.h: what a change of one bit does to every bit.
use slopline.Base.{
  ℕ, ◌-◌, ◌/◌, ◌%◌, ◌^◌, ◌<◌, Bool, true, false, not, List, All, All-get_or_any, get_or, get_or-set,
  set, length, ◌==◌, eq→==, ne→==, ==_iff, Bool-cases, inl, inr, if◌then◌else◌, bit_and, bit_or,
  bit_xor, ◌≡◌, refl, sym, ap, ◌∙◌, arith,
}
use slopline.Bits.Fields.{and_ones}
use slopline.Bits.Single.{
  digit, digit-lt, digit-or, digit-and, digit-xor, digit_pow_self, digit_pow_ne, digit-div,
  digit_complement,
}
use slopline.Core.Endian.{IsByte}
use slopline.Core.Bits.{place, get_bit, set_bit, clear_bit, invert_bit, put_bit}
use native.Mathlib.Nat.{pow-le-pow_right}

-- The byte of a bit.
abbrev byte_of : List ℕ → ℕ → ℕ
byte_of bytes index = get_or bytes (index / 2 ^ 3) 0

pub get_bit-digit :
    (bytes : List ℕ) (j : ℕ) → get_bit bytes j ≡ (digit (place j) (byte_of bytes j) == 1)
unfolding get_bit
get_bit-digit bytes j =
    rw (and_ones 1 (byte_of bytes j / 2 ^ place j), digit-div (place j) (byte_of bytes j)) ground
      (arith, digit-lt (place j) (byte_of bytes j))

pub place-eq : (j : ℕ) → place j ≡ 7 - j % 8
place-eq j = ap (λ (t : ℕ). 7 - t) (and_ones 3 j)

-- Two indices in one byte at one place are one index.
same_place : (i j : ℕ) → i / 2 ^ 3 ≡ j / 2 ^ 3 → place i ≡ place j → i ≡ j
same_place i j e p = omega (arith, place-eq i, place-eq j)

-- A change of the byte of bit `i` that turns digits as `turn` says turns the bits so.
changed :
    (bytes : List ℕ) (i j v : ℕ) (b : Bool)
    → i / 2 ^ 3 < length bytes
    → ((k : ℕ)
        → k < 8
        → (digit k v == 1) ≡ (if place i == k then b else digit k (byte_of bytes i) == 1))
    → get_bit (set bytes (i / 2 ^ 3) v) j ≡ (if i == j then b else get_bit bytes j)
changed bytes i j v b h turn =
    let stored = get_or-set bytes (i / 2 ^ 3) (j / 2 ^ 3) v 0 h in
    let p = place-eq i in
    let q = place-eq j in
    let start = get_bit-digit (set bytes (i / 2 ^ 3) v) j in
    let end = get_bit-digit bytes j in
    elim (Bool-cases (i / 2 ^ 3 == j / 2 ^ 3)) [
      | inr apart ↦
          let other : get_bit (set bytes (i / 2 ^ 3) v) j ≡ get_bit bytes j =
            start ∙ ap (λ (t : ℕ). digit (place j) t == 1) (stored ∙ rw apart refl) ∙ sym end in
          rw (ne→== i j (λ e. absurd (ground (arith, apart, e)))) other
      | inl one ↦
          let here : i / 2 ^ 3 ≡ j / 2 ^ 3 = (==_iff (i / 2 ^ 3) (j / 2 ^ 3)).0 one in
          let turned : get_bit (set bytes (i / 2 ^ 3) v) j
              ≡ (if place i == place j then b else digit (place j) (byte_of bytes i) == 1) =
            start
            ∙ ap (λ (t : ℕ). digit (place j) t == 1) (stored ∙ rw one refl)
            ∙ turn (place j) (omega arith) in
          elim (Bool-cases (i == j)) [
            | inl same ↦
                rw same
                  (turned ∙ rw (eq→== (place i) (place j) (ap place ((==_iff i j).0 same))) refl)
            | inr other ↦ rw other (
                turned
                ∙ rw
                    (ne→== (place i) (place j)
                      (λ e. absurd (ground (arith, other, same_place i j here e))))
                    refl
                ∙ ap (λ (t : ℕ). digit (place j) (get_or bytes t 0) == 1) here
                ∙ sym end)
          ]
    ]

-- The byte that holds a bit.
byte-lt : (bytes : List ℕ) (i : ℕ) → All IsByte bytes → byte_of bytes i < 2 ^ 8
byte-lt bytes i h = All-get_or_any IsByte bytes (i / 2 ^ 3) 0 (omega arith) h

place-lt : (i : ℕ) → place i < 8
place-lt i = omega (arith, place-eq i)

pow_digit : (p k : ℕ) → digit k (2 ^ p) ≡ (if p == k then 1 else 0)
pow_digit p k = elim (Bool-cases (p == k)) [
  | inl same ↦ rw same (ap (λ (t : ℕ). digit k (2 ^ t)) ((==_iff p k).0 same) ∙ digit_pow_self k)
  | inr other ↦ rw other (digit_pow_ne k p (λ e. absurd (ground (arith, other, e))))
]

set-turn :
    (byte p k : ℕ)
    → (digit k (bit_or byte (2 ^ p)) == 1) ≡ (if p == k then true else digit k byte == 1)
set-turn byte p k = ground (arith, pow_digit p k, digit-or k byte (2 ^ p), digit-lt k byte)

byte_pow-lt : (p : ℕ) → p < 8 → 2 ^ p < 2 ^ 8
byte_pow-lt p h =
    omega (arith, pow-le-pow_right {n = 2} (omega arith) {i = p} {j = 7} (omega arith))

clear-turn :
    (byte p k : ℕ)
    → p < 8
    → k < 8
    → (digit k (bit_and byte (255 - 2 ^ p)) == 1) ≡ (if p == k then false else digit k byte == 1)
clear-turn byte p k hp hk = ground (
  arith,
  pow_digit p k,
  digit-and k byte (255 - 2 ^ p),
  digit_complement 8 k (2 ^ p) hk (byte_pow-lt p hp),
  digit-lt k byte,
)

invert-turn :
    (byte p k : ℕ)
    → (digit k (bit_xor byte (2 ^ p)) == 1)
      ≡ (if p == k then not (digit k byte == 1) else digit k byte == 1)
invert-turn byte p k = ground (arith, pow_digit p k, digit-xor k byte (2 ^ p), digit-lt k byte)

read_turn :
    (bytes : List ℕ) (i k : ℕ)
    → (if place i == k
        then not (digit k (byte_of bytes i) == 1)
        else digit k (byte_of bytes i) == 1)
      ≡ (if place i == k then not (get_bit bytes i) else digit k (byte_of bytes i) == 1)
read_turn bytes i k = elim (Bool-cases (place i == k)) [
  | inl same ↦ rw same (
      ap (λ (t : ℕ). not (digit t (byte_of bytes i) == 1)) (sym ((==_iff (place i) k).0 same))
      ∙ ap not (sym (get_bit-digit bytes i)))
  | inr other ↦ rw other refl
]

inverted :
    (bytes : List ℕ) (i j : ℕ)
    → i / 2 ^ 3 < length bytes
    → get_bit (invert_bit bytes i) j ≡ (if i == j then not (get_bit bytes i) else get_bit bytes j)
unfolding invert_bit
inverted bytes i j h =
    let old = byte_of bytes i in
    changed bytes i j (bit_xor old (2 ^ place i)) (not (get_bit bytes i)) h
      λ k below. invert-turn old (place i) k ∙ read_turn bytes i k

-- Within the buffer, `set_bit` with a value makes the bit that value and leaves every other bit, and
-- `invert_bit` turns it over and leaves every other.
pub get_bit-change :
    (bytes : List ℕ) (i j : ℕ) (value : Bool)
    → i / 2 ^ 3 < length bytes
    → (get_bit (put_bit bytes i value) j ≡ (if i == j then value else get_bit bytes j))
      × (get_bit (invert_bit bytes i) j
          ≡ (if i == j then not (get_bit bytes i) else get_bit bytes j))
unfolding put_bit set_bit clear_bit invert_bit
get_bit-change bytes i j true h = (
  changed bytes i j (bit_or (byte_of bytes i) (2 ^ place i)) true h
      (λ k lt. set-turn (byte_of bytes i) (place i) k),
  inverted bytes i j h,
)
get_bit-change bytes i j false h = (
  changed bytes i j (bit_and (byte_of bytes i) (255 - 2 ^ place i)) false h
      (λ k lt. clear-turn (byte_of bytes i) (place i) k (place-lt i) lt),
  inverted bytes i j h,
)
