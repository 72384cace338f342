-- ===== src/Protocol/AccessMask/Laws.antt =====
-- The mask is a map from privileges to Booleans, and is read back from its bytes.
use slopline.Base.{
  ℕ, ◌-◌, ◌/◌, ◌^◌, ◌<◌, Bool, true, false, ◌==◌, if◌then◌else◌, ok, ◌≡◌, refl, ap, ◌∙◌, arith,
}
use native.Mathlib.Nat.{pow-le-pow_right}
use slopline.Bits.Fields.{and_ones}
use slopline.Bits.Single.{
  digit, digit-lt, digit-or, digit-and, digit_pow_self, digit_pow_ne, digit_of_zero, digit-div,
  digit_complement,
}
use slopline.Core.Errors.{exact_size-eq-ok}
use slopline.Core.Endian.{write_u64be, write_u32be}
use slopline.Core.Endian.Laws.{read-write_u64be}
use slopline.Protocol.Constants.AccessPrivilege.{AccessPrivilege, index, index-lt}
use slopline.Protocol.AccessMask.{
  AccessMask, has, set, clear, fill, encode_access_mask, decode_access_mask, try_decode_access_mask,
}

pub has-eq-digit :
    (mask : AccessMask) (q : AccessPrivilege) → has mask q ≡ (digit (63 - index q) mask.bits == 1)
unfolding has
has-eq-digit mask q =
    rw (and_ones 1 (mask.bits / 2 ^ (63 - index q)), digit-div (63 - index q) mask.bits) ground
      (arith, digit-lt (63 - index q) mask.bits)

single-lt : (k : ℕ) → 2 ^ (63 - k) < 2 ^ 64
single-lt k =
    omega (arith, pow-le-pow_right {n = 2} (omega arith) {i = 63 - k} {j = 63} (omega arith))

-- To give or take one privilege changes that one and no other.
pub has-set :
    (mask : AccessMask) (p q : AccessPrivilege) (value : Bool)
    → has (set mask p value) q ≡ (if index p == index q then value else has mask q)
unfolding set
has-set mask p q true =
    let at : 63 - index q ≡ 63 - index p → digit (63 - index q) (2 ^ (63 - index p)) ≡ 1 =
      λ e. ap (λ (k : ℕ). digit k (2 ^ (63 - index p))) e ∙ digit_pow_self (63 - index p) in
    rw (has-eq-digit (set mask p true) q, has-eq-digit mask q) ground
      (
        arith,
        index-lt p,
        index-lt q,
        at,
        digit_pow_ne (63 - index q) (63 - index p),
        digit-or (63 - index q) mask.bits (2 ^ (63 - index p)),
        digit-lt (63 - index q) mask.bits,
      )
has-set mask p q false =
    let at : 63 - index q ≡ 63 - index p → digit (63 - index q) (2 ^ (63 - index p)) ≡ 1 =
      λ e. ap (λ (k : ℕ). digit k (2 ^ (63 - index p))) e ∙ digit_pow_self (63 - index p) in
    rw (has-eq-digit (set mask p false) q, has-eq-digit mask q) ground
      (
        arith,
        index-lt p,
        index-lt q,
        at,
        digit_pow_ne (63 - index q) (63 - index p),
        digit-and (63 - index q) mask.bits (2 ^ 64 - 1 - 2 ^ (63 - index p)),
        digit_complement 64 (63 - index q) (2 ^ (63 - index p)) (omega arith) (single-lt (index p)),
        digit-lt (63 - index q) mask.bits,
      )

pub has-fill :
    (mask : AccessMask) (q : AccessPrivilege)
    → (has (fill mask) q ≡ true) × (has (clear mask) q ≡ false)
unfolding fill clear
has-fill mask q = (
  has-eq-digit (fill mask) q
      ∙ ap (λ d. d == 1)
          (digit_complement 64 (63 - index q) 0 (omega arith) (omega arith)
            ∙ ap (λ (d : ℕ). 1 - d) (digit_of_zero (63 - index q))),
  has-eq-digit (clear mask) q ∙ ap (λ d. d == 1) (digit_of_zero (63 - index q)),
)

-- A mask within its word is read back from its eight bytes.
pub try_decode-encode_access_mask :
    (mask : AccessMask)
    → mask.bits < 2 ^ 64
    → try_decode_access_mask (encode_access_mask mask) ≡ ok mask
unfolding try_decode_access_mask encode_access_mask decode_access_mask
try_decode-encode_access_mask mask h =
    rw (exact_size-eq-ok 8 (write_u64be mask.bits) (unfold write_u64be write_u32be in refl))
      (ap (λ bits. ok (record { bits = bits })) (read-write_u64be mask.bits h))
