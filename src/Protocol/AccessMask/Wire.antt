-- ===== src/Protocol/AccessMask/Wire.antt =====
-- The mask of src/hotline/protocol/include/hotline/protocol/payload.h and the bits of its eight bytes, as
-- src/appwarrior/core/include/appwarrior/core/bits.h reads them.
use slopline.Base.{
  List, length, ltb, ltb→lt, ltb→le, Bool-cases, inl, inr, get_or-append_left, get_or-append_right,
  ℕ, zero, suc, ◌+◌, ◌-◌, ◌*◌, ◌/◌, ◌^◌, ◌<◌, get_or, ◌==◌, bit_and, ◌≡◌, refl, sym, ap, ◌∙◌, arith,
}
use slopline.Bits.Single.{digit, digit-lt, digit-and, digit_complement, digit_of_zero}
use slopline.Core.Endian.{write_u64be, write_u32be}
use slopline.Core.Bits.{get_bit, place}
use slopline.Core.Bits.Access.{get_bit-digit, place-eq}
use slopline.Protocol.Constants.AccessPrivilege.{AccessPrivilege, index, index-lt}
use slopline.Protocol.AccessMask.{AccessMask, has, encode_access_mask}
use slopline.Protocol.AccessMask.Laws.{has-eq-digit}
use native.Mathlib.Nat.{div-div-eq-div-mul, pow-suc, one-le-pow}

-- A digit below the ones of a mask is kept by it.
digit-ones : (w k a : ℕ) → k < w → digit k (bit_and a (2 ^ w - 1)) ≡ digit k a
digit-ones w k a h = omega (
  arith,
  digit-and k a (2 ^ w - 1),
  digit_complement w k 0 h (omega (arith, one-le-pow w 2)),
  digit_of_zero k,
  ap (digit k) {x = 2 ^ w - 1 - 0} {y = 2 ^ w - 1} (omega arith),
  digit-lt k a,
)

digit-shift : (k j m a : ℕ) → m ≡ k + j → digit j (a / 2 ^ k) ≡ digit m a
digit-shift zero j m a e =
    ap (digit j) {x = a / 2 ^ 0} {y = a} (omega arith)
    ∙ ap (λ (q : ℕ). digit q a) {x = j} {y = m} (omega arith)
digit-shift (suc k) j zero a e = absurd (omega arith)
digit-shift (suc k) j (suc m) a e =
    let shift : a / 2 ^ suc k ≡ a / 2 / 2 ^ k =
      ap (λ (t : ℕ). a / t) (omega (arith, pow-suc 2 k)) ∙ sym (div-div-eq-div-mul a 2 (2 ^ k)) in
    ap (digit j) shift ∙ digit-shift k j m (a / 2) (omega arith)

-- The digits of a word in its bytes, the most significant byte first.
word_digit :
    (n i j m : ℕ)
    → i < 4
    → j < 8
    → m ≡ 8 * (3 - i) + j
    → digit j (get_or (write_u32be n) i 0) ≡ digit m n
unfolding write_u32be
word_digit n zero j m h k e = digit-ones 8 j (n / 2 ^ 24) k ∙ digit-shift 24 j m n (omega arith)
word_digit n (suc zero) j m h k e =
    digit-ones 8 j (n / 2 ^ 16) k ∙ digit-shift 16 j m n (omega arith)
word_digit n (suc (suc zero)) j m h k e =
    digit-ones 8 j (n / 2 ^ 8) k ∙ digit-shift 8 j m n (omega arith)
word_digit n (suc (suc (suc zero))) j m h k e =
    digit-ones 8 j n k ∙ ap (λ (q : ℕ). digit q n) {x = j} {y = m} (omega arith)
word_digit n (suc (suc (suc (suc i)))) j m h k e = absurd (omega arith)

long_digit :
    (n i j m : ℕ)
    → i < 8
    → j < 8
    → m ≡ 8 * (7 - i) + j
    → digit j (get_or (write_u64be n) i 0) ≡ digit m n
unfolding write_u64be
long_digit n i j m h k e =
    let high : List ℕ = write_u32be (n / 2 ^ 32) in
    let low : List ℕ = write_u32be (bit_and n 0xffff_ffff) in
    let size : length high ≡ 4 = unfold write_u32be in refl in
    elim (Bool-cases (ltb i 4)) [
      | inl front ↦
          ap (digit j) (get_or-append_left high low i 0 (omega (arith, ltb→lt i 4 front)))
          ∙ word_digit (n / 2 ^ 32) i j (m - 32) (ltb→lt i 4 front) k
              (omega (arith, ltb→lt i 4 front))
          ∙ digit-shift 32 (m - 32) m n (omega (arith, ltb→lt i 4 front))
      | inr back ↦
          ap (digit j) (get_or-append_right high low i (i - 4) 0 (omega (arith, ltb→le i 4 back)))
          ∙ word_digit (bit_and n 0xffff_ffff) (i - 4) j m (omega (arith, ltb→le i 4 back)) k
              (omega (arith, ltb→le i 4 back))
          ∙ digit-ones 32 m n (omega (arith, ltb→le i 4 back))
    ]

-- A privilege is the bit of its index in the eight bytes of the mask on the wire.
pub has-get_bit :
    (mask : AccessMask) (privilege : AccessPrivilege)
    → has mask privilege ≡ get_bit (encode_access_mask mask) (index privilege)
unfolding encode_access_mask
has-get_bit mask privilege =
    let p = index privilege in
    let inside : p < 64 = index-lt privilege in
    has-eq-digit mask privilege
    ∙ ap (λ (d : ℕ). d == 1)
        (sym (
          long_digit mask.bits (p / 2 ^ 3) (place p) (63 - p) (omega arith)
            (omega (arith, place-eq p)) (omega (arith, place-eq p))))
    ∙ sym (get_bit-digit (encode_access_mask mask) p)
