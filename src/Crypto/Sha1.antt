-- ===== src/Crypto/Sha1.antt =====
-- src/appwarrior/crypto/src/sha1.cpp and include/appwarrior/crypto/sha1.h. A word keeps its
-- wrap-around written out; `~` is exclusive or with 32 ones.
use slopline.Base.{
  ℕ, zero, suc, ◌+◌, ◌-◌, ◌*◌, ◌/◌, ◌%◌, ◌^◌, List, [], ◌∷◌, ◌++◌, map, get_or, subspan, ltb,
  if◌then◌else◌, bit_and, bit_or, bit_xor,
}
use slopline.Core.Endian.{read_u32be, write_u32be}
use slopline.Crypto.Digest.{digest_words}

unfoldable pub rotate_left : ℕ → ℕ → ℕ
rotate_left value amount = bit_or (value * 2 ^ amount % 2 ^ 32) (value / 2 ^ (32 - amount))

-- The five words of the state, and the variables of a block's rounds.
pub record State : Type 0 where
  pub a : ℕ
  pub b : ℕ
  pub c : ℕ
  pub d : ℕ
  pub e : ℕ

abbrev pub start : State
start = record {
  a = 0x6745_2301;
  b = 0xefcd_ab89;
  c = 0x98ba_dcfe;
  d = 0x1032_5476;
  e = 0xc3d2_e1f0;
}

-- The first `n` words of the block.
unfoldable pub block_words : ℕ → List ℕ → List ℕ
block_words zero block = []
block_words (suc i) block = block_words i block ++ (read_u32be (subspan (i * 4) 4 block) ∷ [])

-- `n` words more, behind the words there are.
unfoldable pub schedule_words : ℕ → ℕ → List ℕ → List ℕ
schedule_words zero i w = w
schedule_words (suc n) i w =
    let mixed =
      bit_xor (bit_xor (bit_xor (get_or w (i - 3) 0) (get_or w (i - 8) 0)) (get_or w (i - 14) 0))
        (get_or w (i - 16) 0) in
    schedule_words n (suc i) (w ++ (rotate_left mixed 1 ∷ []))

-- `f` and `k` of round `i`.
unfoldable pub round_mix : ℕ → State → ℕ × ℕ
round_mix i s =
    if ltb i 20
    then (bit_or (bit_and s.b s.c) (bit_and (bit_xor s.b 0xffff_ffff) s.d), 0x5a82_7999)
    else if ltb i 40
    then (bit_xor (bit_xor s.b s.c) s.d, 0x6ed9_eba1)
    else if ltb i 60
    then (bit_or (bit_or (bit_and s.b s.c) (bit_and s.b s.d)) (bit_and s.c s.d), 0x8f1b_bcdc)
    else (bit_xor (bit_xor s.b s.c) s.d, 0xca62_c1d6)

unfoldable pub round : ℕ → List ℕ → State → State
round i w s =
    let (f, k) = round_mix i s in
    record {
      a = (rotate_left s.a 5 + f + s.e + k + get_or w i 0) % 2 ^ 32;
      b = s.a;
      c = rotate_left s.b 30;
      d = s.c;
      e = s.d;
    }

-- The first `n` rounds.
unfoldable pub rounds : ℕ → List ℕ → State → State
rounds zero w s = s
rounds (suc i) w s = round i w (rounds i w s)

unfoldable pub process_block : State → List ℕ → State
process_block state block =
    let t = rounds 80 (schedule_words 64 16 (block_words 16 block)) state in
    record {
      a = (state.a + t.a) % 2 ^ 32;
      b = (state.b + t.b) % 2 ^ 32;
      c = (state.c + t.c) % 2 ^ 32;
      d = (state.d + t.d) % 2 ^ 32;
      e = (state.e + t.e) % 2 ^ 32;
    }

-- Eight bytes, the most significant first.
abbrev pub length_bytes : ℕ → List ℕ
length_bytes bits =
    map (λ i. bit_and (bits / 2 ^ (8 * (7 - i))) 0xff) (0 ∷ 1 ∷ 2 ∷ 3 ∷ 4 ∷ 5 ∷ 6 ∷ 7 ∷ [])

abbrev pub emit : State → List ℕ
emit s =
    write_u32be s.a
    ++ (write_u32be s.b ++ (write_u32be s.c ++ (write_u32be s.d ++ write_u32be s.e)))

unfoldable pub digest : List ℕ → List ℕ
digest message = emit (digest_words process_block length_bytes start message)
