-- ===== src/Core/Align.antt =====
-- src/appwarrior/core/include/appwarrior/core/align.h: rounding to a power of two.
use slopline.Base.{
  ℕ, zero, suc, ◌+◌, ◌-◌, ◌*◌, ◌/◌, ◌%◌, ◌^◌, ◌≤◌, ◌<◌, bit_and, bit_xor, ◌≡◌, refl, sym, ap, ap₂,
  ◌∙◌, arith,
}
use slopline.Bits.Digits.{bit_and_digit}
use slopline.Bits.Xor.{xor_digit}
use slopline.Bits.Fields.{and_ones, pow_suc_scaled}
use native.Mathlib.Nat.{
  pow-suc, one-le-pow, div-div-eq-div-mul, mod-eq_of_lt, mod-lt, mul-mod_left, div-add-mod',
}

-- Over a word of `w` bits, in which `value + alignment - 1` wraps around and `~` is exclusive or with
-- all ones.
unfoldable pub up : ℕ → ℕ → ℕ → ℕ
up w value alignment =
    bit_and ((value + alignment - 1) % 2 ^ w) (bit_xor (alignment - 1) (2 ^ w - 1))

unfoldable pub down : ℕ → ℕ → ℕ → ℕ
down w value alignment = bit_and value (bit_xor (alignment - 1) (2 ^ w - 1))

xor_zero_below : (n b : ℕ) → b ≤ n → bit_xor 0 b ≡ b
xor_zero_below zero zero h = refl
xor_zero_below zero (suc b) h = absurd (omega arith)
xor_zero_below (suc n) b h = omega (arith, xor_digit 0 b, xor_zero_below n (b / 2) (omega arith))

-- The ones of a word above its `k` lowest digits.
mask_ones : (k m : ℕ) → bit_xor (2 ^ k - 1) (2 ^ (k + m) - 1) ≡ (2 ^ m - 1) * 2 ^ k
mask_ones zero m =
    ap (λ (n : ℕ). bit_xor 0 (2 ^ n - 1)) {x = 0 + m} {y = m} (omega arith)
    ∙ xor_zero_below (2 ^ m - 1) (2 ^ m - 1) (omega arith)
    ∙ omega arith
mask_ones (suc k) m =
    let low : ℕ = 2 ^ suc k - 1 in
    let word : ℕ = 2 ^ (suc k + m) - 1 in
    let grows : 2 ^ (suc k + m) ≡ 2 ^ suc (k + m) =
      ap (λ (n : ℕ). 2 ^ n) {x = suc k + m} {y = suc (k + m)} (omega arith) in
    let halves : bit_xor (low / 2) (word / 2) ≡ bit_xor (2 ^ k - 1) (2 ^ (k + m) - 1) =
      ap₂ bit_xor (omega (arith, pow-suc 2 k)) (omega (arith, grows, pow-suc 2 (k + m))) in
    omega (
      arith,
      xor_digit low word,
      halves,
      mask_ones k m,
      pow-suc 2 k,
      grows,
      pow-suc 2 (k + m),
      one-le-pow k 2,
      one-le-pow (k + m) 2,
      pow_suc_scaled (2 ^ m - 1) k,
    )

and_mask : (k m a : ℕ) → bit_and a ((2 ^ m - 1) * 2 ^ k) ≡ a / 2 ^ k % 2 ^ m * 2 ^ k
and_mask zero m a =
    ap (bit_and a) {x = (2 ^ m - 1) * 2 ^ 0} {y = 2 ^ m - 1} (omega arith)
    ∙ and_ones m a
    ∙ sym (ap (λ (t : ℕ). t % 2 ^ m * 1) {x = a / 2 ^ 0} {y = a} (omega arith) ∙ omega arith)
and_mask (suc k) m a =
    let mask : ℕ = (2 ^ m - 1) * 2 ^ suc k in
    let half : bit_and (a / 2) (mask / 2) ≡ bit_and (a / 2) ((2 ^ m - 1) * 2 ^ k) =
      ap (bit_and (a / 2)) (omega (arith, pow_suc_scaled (2 ^ m - 1) k)) in
    let shift : a / 2 / 2 ^ k ≡ a / 2 ^ suc k =
      div-div-eq-div-mul a 2 (2 ^ k) ∙ ap (λ (t : ℕ). a / t) (omega (arith, pow-suc 2 k)) in
    let shifted : a / 2 / 2 ^ k % 2 ^ m * 2 ^ k ≡ a / 2 ^ suc k % 2 ^ m * 2 ^ k =
      ap (λ (t : ℕ). t % 2 ^ m * 2 ^ k) shift in
    omega (
      arith,
      bit_and_digit a mask,
      half,
      and_mask k m (a / 2),
      shifted,
      pow_suc_scaled (2 ^ m - 1) k,
      pow_suc_scaled (a / 2 ^ suc k % 2 ^ m) k,
    )

shift-lt : (k m a : ℕ) → a < 2 ^ (k + m) → a / 2 ^ k < 2 ^ m
shift-lt zero m a h =
    let same : 2 ^ (0 + m) ≡ 2 ^ m = ap (λ (n : ℕ). 2 ^ n) {x = 0 + m} {y = m} (omega arith) in
    omega arith
shift-lt (suc k) m a h =
    let grows : 2 ^ (suc k + m) ≡ 2 ^ suc (k + m) =
      ap (λ (n : ℕ). 2 ^ n) {x = suc k + m} {y = suc (k + m)} (omega arith) in
    let shift : a / 2 / 2 ^ k ≡ a / 2 ^ suc k =
      div-div-eq-div-mul a 2 (2 ^ k) ∙ ap (λ (t : ℕ). a / t) (omega (arith, pow-suc 2 k)) in
    omega (arith, shift, shift-lt k m (a / 2) (omega (arith, h, grows, pow-suc 2 (k + m))))

down_lem :
    (k m value : ℕ) → value < 2 ^ (k + m) → down (k + m) value (2 ^ k) ≡ value / 2 ^ k * 2 ^ k
unfolding down
down_lem k m value h =
    ap (bit_and value) (mask_ones k m)
    ∙ and_mask k m value
    ∙ ap (λ (t : ℕ). t * 2 ^ k) (mod-eq_of_lt (shift-lt k m value h))

-- The multiple of the alignment that the division by it leaves.
multiple_lem :
    (k x : ℕ)
    → (x / 2 ^ k * 2 ^ k % 2 ^ k ≡ 0) × (x / 2 ^ k * 2 ^ k ≤ x) × (x < x / 2 ^ k * 2 ^ k + 2 ^ k)
multiple_lem k x =
    let positive : 0 < 2 ^ k = omega (arith, one-le-pow k 2) in
    let sum : x / 2 ^ k * 2 ^ k + x % 2 ^ k ≡ x = div-add-mod' x (2 ^ k) in
    let rest : x % 2 ^ k < 2 ^ k = mod-lt x positive in
    (mul-mod_left (x / 2 ^ k) (2 ^ k), omega arith, omega arith)

-- In a word of `k + m` bits, for the alignment 2 ^ k and a value of at most 2 ^ (k + m) - 2 ^ k: `down`
-- is the greatest multiple of the alignment that is not above the value, and `up` the least that is
-- not below it.
pub up-down :
    (k m value : ℕ)
    → value + 2 ^ k ≤ 2 ^ (k + m)
    → let lower = down (k + m) value (2 ^ k) in
      let upper = up (k + m) value (2 ^ k) in
      (lower % 2 ^ k ≡ 0)
      × (lower ≤ value)
      × (value < lower + 2 ^ k)
      × (upper % 2 ^ k ≡ 0)
      × (value ≤ upper)
      × (upper < value + 2 ^ k)
unfolding up
up-down k m value h =
    let positive : 0 < 2 ^ k = omega (arith, one-le-pow k 2) in
    let above : ℕ = value + 2 ^ k - 1 in
    let whole : above % 2 ^ (k + m) ≡ above = mod-eq_of_lt (omega arith) in
    let lower : down (k + m) value (2 ^ k) ≡ value / 2 ^ k * 2 ^ k =
      down_lem k m value (omega arith) in
    let upper : up (k + m) value (2 ^ k) ≡ above / 2 ^ k * 2 ^ k =
      ap (λ (t : ℕ). bit_and t (bit_xor (2 ^ k - 1) (2 ^ (k + m) - 1))) whole
      ∙ ap (bit_and above) (mask_ones k m)
      ∙ and_mask k m above
      ∙ ap (λ (t : ℕ). t * 2 ^ k) (mod-eq_of_lt (shift-lt k m above (omega arith))) in
    let (low0, low1, low2) = multiple_lem k value in
    let (up0, up1, up2) = multiple_lem k above in
    (
      ap (λ (t : ℕ). t % 2 ^ k) lower ∙ low0,
      omega arith,
      omega arith,
      ap (λ (t : ℕ). t % 2 ^ k) upper ∙ up0,
      omega arith,
      omega arith,
    )
