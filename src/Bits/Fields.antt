-- ===== src/Bits/Fields.antt =====
-- Packed fields: `|` of a shifted value and a value below it is a sum, and `&` with ones is `%`.
use slopline.Base.{
  ℕ, zero, suc, ◌+◌, ◌-◌, ◌*◌, ◌/◌, ◌%◌, ◌^◌, ◌≤◌, ◌<◌, bit_and, bit_or, ◌≡◌, refl, sym, ap, ap₂,
  ◌∙◌, arith,
}
use mathlib.Core.Path.{subst}
use slopline.Bits.Digits.{bit_and_digit, bit_or_digit}
use native.Mathlib.Nat.{pow-suc, one-le-pow, le_refl, div-add-mod'}

or_zero_below : (n a : ℕ) → a ≤ n → bit_or a 0 ≡ a
or_zero_below n zero h = refl
or_zero_below zero (suc a) h = absurd (omega arith)
or_zero_below (suc n) (suc a) h =
    omega (arith, bit_or_digit (suc a) 0, or_zero_below n (suc a / 2) (omega arith))

and_zero_below : (n a : ℕ) → a ≤ n → bit_and a 0 ≡ 0
and_zero_below n zero h = refl
and_zero_below zero (suc a) h = absurd (omega arith)
and_zero_below (suc n) (suc a) h =
    omega (arith, bit_and_digit (suc a) 0, and_zero_below n (suc a / 2) (omega arith))

pub pow_suc_scaled : (q k : ℕ) → q * 2 ^ suc k ≡ 2 * (q * 2 ^ k)
pow_suc_scaled q k = omega (arith, ap (λ (t : ℕ). q * t) (pow-suc 2 k))

-- `(hi << k) | lo` for `lo` of `k` digits.
pub or_fields : (k hi lo : ℕ) → lo < 2 ^ k → bit_or (hi * 2 ^ k) lo ≡ hi * 2 ^ k + lo
or_fields zero hi zero h = omega (arith, or_zero_below (hi * 2 ^ 0) (hi * 2 ^ 0) (omega arith))
or_fields zero hi (suc lo) h = absurd (omega arith)
or_fields (suc k) hi lo h =
    let half : hi * 2 ^ suc k / 2 ≡ hi * 2 ^ k = omega (arith, pow_suc_scaled hi k) in
    omega (
      arith,
      bit_or_digit (hi * 2 ^ suc k) lo,
      ap (λ (t : ℕ). bit_or t (lo / 2)) half,
      pow_suc_scaled hi k,
      or_fields k hi (lo / 2) (omega (arith, pow-suc 2 k)),
    )

and_ones_sum : (k hi lo : ℕ) → lo < 2 ^ k → bit_and (hi * 2 ^ k + lo) (2 ^ k - 1) ≡ lo
and_ones_sum zero hi zero h = and_zero_below _ _ (le_refl _)
and_ones_sum zero hi (suc lo) h = absurd (omega arith)
and_ones_sum (suc k) hi lo h =
    let top : (hi * 2 ^ suc k + lo) / 2 ≡ hi * 2 ^ k + lo / 2 =
      omega (arith, pow_suc_scaled hi k) in
    let ones : (2 ^ suc k - 1) / 2 ≡ 2 ^ k - 1 = omega (arith, pow-suc 2 k) in
    let digit : (2 ^ suc k - 1) % 2 ≡ 1 = omega (arith, pow-suc 2 k, one-le-pow k 2) in
    omega (
      arith,
      bit_and_digit (hi * 2 ^ suc k + lo) (2 ^ suc k - 1),
      ap₂ bit_and top ones,
      digit,
      pow_suc_scaled hi k,
      and_ones_sum k hi (lo / 2) (omega (arith, pow-suc 2 k)),
    )

-- `a & (2^k - 1)`.
pub and_ones : (k a : ℕ) → bit_and a (2 ^ k - 1) ≡ a % 2 ^ k
and_ones k a =
    let pos : 0 < 2 ^ k = omega (arith, one-le-pow k 2) in
    let sum : a / 2 ^ k * 2 ^ k + a % 2 ^ k ≡ a = grind arith in
    ap (λ (t : ℕ). bit_and t (2 ^ k - 1)) (sym sum)
    ∙ and_ones_sum k (a / 2 ^ k) (a % 2 ^ k) (grind arith)

-- The same for a first number whose `k` low digits are 0, in whatever form it stands.
pub or_disjoint : (k x lo : ℕ) → x % 2 ^ k ≡ 0 → lo < 2 ^ k → bit_or x lo ≡ x + lo
or_disjoint k x lo clear h =
    let sum : x / 2 ^ k * 2 ^ k ≡ x = omega (arith, div-add-mod' x (2 ^ k)) in
    subst (λ y. bit_or y lo ≡ y + lo) sum (or_fields k (x / 2 ^ k) lo h)

or_comm_below : (n a b : ℕ) → a ≤ n → b ≤ n → bit_or a b ≡ bit_or b a
or_comm_below zero zero zero h k = refl
or_comm_below zero zero (suc b) h k = absurd (omega arith)
or_comm_below zero (suc a) b h k = absurd (omega arith)
or_comm_below (suc n) a b h k = omega (
  arith,
  bit_or_digit a b,
  bit_or_digit b a,
  or_comm_below n (a / 2) (b / 2) (omega arith) (omega arith),
)

pub or_comm : (a b : ℕ) → bit_or a b ≡ bit_or b a
or_comm a b = or_comm_below (a + b) a b (omega arith) (omega arith)
