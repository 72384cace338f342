-- ===== src/Core/Endian/Laws.antt =====
-- Byte order: each reader is the sum that its format promises, and undoes its writer.
use slopline.Base.{
  ℕ, ◌+◌, ◌*◌, ◌/◌, ◌%◌, ◌^◌, ◌<◌, bit_and, ◌≡◌, ap₂, ◌∙◌, List, [], ◌∷◌, ◌++◌, length, All, take,
  subspan, arith,
}
use slopline.Bits.Fields.{or_disjoint, or_comm, and_ones}
use slopline.Core.Endian.{
  IsByte, read_u16be, read_u32be, read_u64be, read_u32le, write_u16be, write_u32be, write_u64be,
  write_u32le,
}

pub low_byte : (v : ℕ) → bit_and v 0xff ≡ v % 256
low_byte v = and_ones 8 v

pub read_u16be_sum :
    (a b : ℕ) (rest : List ℕ) → a < 256 → b < 256 → read_u16be (a ∷ b ∷ rest) ≡ a * 256 + b
unfolding read_u16be
read_u16be_sum a b rest ha hb = or_disjoint 8 (a * 256) b (omega arith) (omega arith)

pub read_u32be_sum :
    (a b c d : ℕ) (rest : List ℕ)
    → a < 256
    → b < 256
    → c < 256
    → d < 256
    → read_u32be (a ∷ b ∷ c ∷ d ∷ rest) ≡ ((a * 256 + b) * 256 + c) * 256 + d
unfolding read_u32be
read_u32be_sum a b c d rest ha hb hc hd =
    rw
      (
        or_disjoint 24 (a * 2 ^ 24) (b * 2 ^ 16) (omega arith) (omega arith),
        or_disjoint 16 (a * 2 ^ 24 + b * 2 ^ 16) (c * 2 ^ 8) (omega arith) (omega arith),
        or_disjoint 8 (a * 2 ^ 24 + b * 2 ^ 16 + c * 2 ^ 8) d (omega arith) (omega arith),
      )
      (omega arith)

pub read_u32le_sum :
    (a b c d : ℕ) (rest : List ℕ)
    → a < 256
    → b < 256
    → c < 256
    → d < 256
    → read_u32le (a ∷ b ∷ c ∷ d ∷ rest) ≡ a + 256 * (b + 256 * (c + 256 * d))
unfolding read_u32le
read_u32le_sum a b c d rest ha hb hc hd =
    rw
      (
        or_comm a (b * 2 ^ 8),
        or_disjoint 8 (b * 2 ^ 8) a (omega arith) (omega arith),
        or_comm (b * 2 ^ 8 + a) (c * 2 ^ 16),
        or_disjoint 16 (c * 2 ^ 16) (b * 2 ^ 8 + a) (omega arith) (omega arith),
        or_comm (c * 2 ^ 16 + (b * 2 ^ 8 + a)) (d * 2 ^ 24),
        or_disjoint 24 (d * 2 ^ 24) (c * 2 ^ 16 + (b * 2 ^ 8 + a)) (omega arith) (omega arith),
      )
      (omega arith)

pub read-write_u16be : (v : ℕ) → v < 2 ^ 16 → read_u16be (write_u16be v) ≡ v
unfolding write_u16be
read-write_u16be v h =
    rw (low_byte v, low_byte (v / 256))
      (read_u16be_sum (v / 256 % 256) (v % 256) [] (omega arith) (omega arith) ∙ omega arith)

pub read-write_u32be : (v : ℕ) → v < 2 ^ 32 → read_u32be (write_u32be v) ≡ v
unfolding write_u32be
read-write_u32be v h =
    rw (low_byte v, low_byte (v / 2 ^ 8), low_byte (v / 2 ^ 16), low_byte (v / 2 ^ 24))
      (read_u32be_sum (v / 2 ^ 24 % 256) (v / 2 ^ 16 % 256) (v / 2 ^ 8 % 256) (v % 256) []
          (omega arith) (omega arith) (omega arith) (omega arith)
        ∙ omega arith)

pub write_u16be-IsByte : (v : ℕ) → All IsByte (write_u16be v)
unfolding write_u16be
write_u16be-IsByte v = omega (arith, low_byte v, low_byte (v / 256))

pub write_u32be-IsByte : (v : ℕ) → All IsByte (write_u32be v)
unfolding write_u32be
write_u32be-IsByte v =
    omega (arith, low_byte v, low_byte (v / 2 ^ 8), low_byte (v / 2 ^ 16), low_byte (v / 2 ^ 24))

pub read_u16be-lt : (bytes : List ℕ) → All IsByte bytes → read_u16be bytes < 2 ^ 16
unfolding read_u16be
read_u16be-lt [] h = omega arith
read_u16be-lt (a ∷ []) h = omega arith
read_u16be-lt (a ∷ b ∷ rest) h =
    omega (arith, or_disjoint 8 (a * 256) b (omega arith) (omega arith))

pub write-read_u16be :
    (a b : ℕ) → a < 256 → b < 256 → write_u16be (read_u16be (a ∷ b ∷ [])) ≡ a ∷ b ∷ []
unfolding write_u16be
write-read_u16be a b ha hb =
    rw (read_u16be_sum a b [] ha hb, low_byte (a * 256 + b), low_byte ((a * 256 + b) / 256))
      (ap₂ (λ x y. x ∷ y ∷ []) (omega arith) (omega arith))

pub read-write_u64be : (v : ℕ) → v < 2 ^ 64 → read_u64be (write_u64be v) ≡ v
unfolding read_u64be write_u64be
read-write_u64be v h =
    rw
      (
        and_ones 32 v,
        read-write_u32be (v / 2 ^ 32) (omega arith),
        read-write_u32be (v % 2 ^ 32) (omega arith),
        or_disjoint 32 (v / 2 ^ 32 * 2 ^ 32) (v % 2 ^ 32) (omega arith) (omega arith),
      )
      (omega arith)

pub read-write_u32le : (v : ℕ) → v < 2 ^ 32 → read_u32le (write_u32le v) ≡ v
unfolding write_u32le
read-write_u32le v h =
    rw (low_byte v, low_byte (v / 2 ^ 8), low_byte (v / 2 ^ 16), low_byte (v / 2 ^ 24))
      (read_u32le_sum (v % 256) (v / 2 ^ 8 % 256) (v / 2 ^ 16 % 256) (v / 2 ^ 24 % 256) []
          (omega arith) (omega arith) (omega arith) (omega arith)
        ∙ omega arith)

pub write-read_u32be :
    (a b c d : ℕ)
    → a < 256
    → b < 256
    → c < 256
    → d < 256
    → write_u32be (read_u32be (a ∷ b ∷ c ∷ d ∷ [])) ≡ a ∷ b ∷ c ∷ d ∷ []
unfolding write_u32be
write-read_u32be a b c d ha hb hc hd =
    let v : ℕ = ((a * 256 + b) * 256 + c) * 256 + d in
    rw
      (
        read_u32be_sum a b c d [] ha hb hc hd,
        low_byte v,
        low_byte (v / 2 ^ 8),
        low_byte (v / 2 ^ 16),
        low_byte (v / 2 ^ 24),
      )
      (ap₂ (λ x y. x ∷ y) (omega arith)
        (ap₂ (λ x y. x ∷ y) (omega arith) (ap₂ (λ x y. x ∷ y ∷ []) (omega arith) (omega arith))))

pub read_u32be-lt : (bytes : List ℕ) → All IsByte bytes → read_u32be bytes < 2 ^ 32
unfolding read_u32be
read_u32be-lt [] h = omega arith
read_u32be-lt (a ∷ []) h = omega arith
read_u32be-lt (a ∷ b ∷ []) h = omega arith
read_u32be-lt (a ∷ b ∷ c ∷ []) h = omega arith
read_u32be-lt (a ∷ b ∷ c ∷ d ∷ rest) h =
    let sum = read_u32be_sum a b c d rest (omega arith) (omega arith) (omega arith) (omega arith) in
    unfold read_u32be in omega (arith, sum)

-- Two and four bytes of header, read and written back.
pub two_bytes :
    (head : List ℕ) → length head ≡ 2 → All IsByte head → write_u16be (read_u16be head) ≡ head
two_bytes (a ∷ b ∷ []) e h = write-read_u16be a b h.0 h.1.0
two_bytes [] e h = absurd (omega arith)
two_bytes (a ∷ []) e h = absurd (omega arith)
two_bytes (a ∷ b ∷ c ∷ r) e h = absurd (omega arith)

pub four_bytes :
    (head : List ℕ)
    → length head ≡ 4
    → All IsByte head
    → write_u16be (read_u16be (take 2 head)) ++ write_u16be (read_u16be (subspan 2 2 head)) ≡ head
four_bytes (a ∷ b ∷ c ∷ d ∷ []) e h =
    ap₂ ◌++◌ (write-read_u16be a b h.0 h.1.0) (write-read_u16be c d h.1.1.0 h.1.1.1.0)
four_bytes [] e h = absurd (omega arith)
four_bytes (a ∷ []) e h = absurd (omega arith)
four_bytes (a ∷ b ∷ []) e h = absurd (omega arith)
four_bytes (a ∷ b ∷ c ∷ []) e h = absurd (omega arith)
four_bytes (a ∷ b ∷ c ∷ d ∷ x ∷ r) e h = absurd (omega arith)

pub four_read :
    (word : List ℕ) → length word ≡ 4 → All IsByte word → write_u32be (read_u32be word) ≡ word
four_read (a ∷ b ∷ c ∷ d ∷ []) e h = write-read_u32be a b c d h.0 h.1.0 h.1.1.0 h.1.1.1.0
four_read [] e h = absurd (omega arith)
four_read (a ∷ []) e h = absurd (omega arith)
four_read (a ∷ b ∷ []) e h = absurd (omega arith)
four_read (a ∷ b ∷ c ∷ []) e h = absurd (omega arith)
four_read (a ∷ b ∷ c ∷ d ∷ x ∷ r) e h = absurd (omega arith)

-- The number at the front of more bytes.
pub read_u16be-front :
    (v : ℕ) (rest : List ℕ) → v < 2 ^ 16 → read_u16be (take 2 (write_u16be v ++ rest)) ≡ v
unfolding write_u16be
read_u16be-front v rest h = read-write_u16be v h
