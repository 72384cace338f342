-- ===== src/Crypto/Md5.antt =====
-- src/appwarrior/crypto/src/md5.cpp and include/appwarrior/crypto/md5.h. A word keeps its wrap-around
-- written out; `~` is exclusive or with 32 ones.
use slopline.Base.{
  ℕ, zero, suc, ◌+◌, ◌-◌, ◌*◌, ◌/◌, ◌%◌, ◌^◌, List, [], ◌∷◌, ◌++◌, map, get_or, subspan, ltb,
  if◌then◌else◌, bit_and, bit_or, bit_xor,
}
use slopline.Core.Endian.{read_u32le, write_u32le}
use slopline.Crypto.Digest.{digest_words}

abbrev pub sines : List ℕ
sines =
    0xd76a_a478 ∷ 0xe8c7_b756 ∷ 0x2420_70db ∷ 0xc1bd_ceee ∷ 0xf57c_0faf ∷ 0x4787_c62a ∷ 0xa830_4613
    ∷ 0xfd46_9501 ∷ 0x6980_98d8 ∷ 0x8b44_f7af ∷ 0xffff_5bb1 ∷ 0x895c_d7be ∷ 0x6b90_1122
    ∷ 0xfd98_7193 ∷ 0xa679_438e ∷ 0x49b4_0821 ∷ 0xf61e_2562 ∷ 0xc040_b340 ∷ 0x265e_5a51
    ∷ 0xe9b6_c7aa ∷ 0xd62f_105d ∷ 0x0244_1453 ∷ 0xd8a1_e681 ∷ 0xe7d3_fbc8 ∷ 0x21e1_cde6
    ∷ 0xc337_07d6 ∷ 0xf4d5_0d87 ∷ 0x455a_14ed ∷ 0xa9e3_e905 ∷ 0xfcef_a3f8 ∷ 0x676f_02d9
    ∷ 0x8d2a_4c8a ∷ 0xfffa_3942 ∷ 0x8771_f681 ∷ 0x6d9d_6122 ∷ 0xfde5_380c ∷ 0xa4be_ea44
    ∷ 0x4bde_cfa9 ∷ 0xf6bb_4b60 ∷ 0xbebf_bc70 ∷ 0x289b_7ec6 ∷ 0xeaa1_27fa ∷ 0xd4ef_3085
    ∷ 0x0488_1d05 ∷ 0xd9d4_d039 ∷ 0xe6db_99e5 ∷ 0x1fa2_7cf8 ∷ 0xc4ac_5665 ∷ 0xf429_2244
    ∷ 0x432a_ff97 ∷ 0xab94_23a7 ∷ 0xfc93_a039 ∷ 0x655b_59c3 ∷ 0x8f0c_cc92 ∷ 0xffef_f47d
    ∷ 0x8584_5dd1 ∷ 0x6fa8_7e4f ∷ 0xfe2c_e6e0 ∷ 0xa301_4314 ∷ 0x4e08_11a1 ∷ 0xf753_7e82
    ∷ 0xbd3a_f235 ∷ 0x2ad7_d2bb ∷ 0xeb86_d391 ∷ []

abbrev pub shifts : List ℕ
shifts =
    7 ∷ 12 ∷ 17 ∷ 22 ∷ 7 ∷ 12 ∷ 17 ∷ 22 ∷ 7 ∷ 12 ∷ 17 ∷ 22 ∷ 7 ∷ 12 ∷ 17 ∷ 22 ∷ 5 ∷ 9 ∷ 14 ∷ 20 ∷ 5
    ∷ 9 ∷ 14 ∷ 20 ∷ 5 ∷ 9 ∷ 14 ∷ 20 ∷ 5 ∷ 9 ∷ 14 ∷ 20 ∷ 4 ∷ 11 ∷ 16 ∷ 23 ∷ 4 ∷ 11 ∷ 16 ∷ 23 ∷ 4 ∷ 11
    ∷ 16 ∷ 23 ∷ 4 ∷ 11 ∷ 16 ∷ 23 ∷ 6 ∷ 10 ∷ 15 ∷ 21 ∷ 6 ∷ 10 ∷ 15 ∷ 21 ∷ 6 ∷ 10 ∷ 15 ∷ 21 ∷ 6 ∷ 10
    ∷ 15 ∷ 21 ∷ []

unfoldable pub rotate_left : ℕ → ℕ → ℕ
rotate_left value amount = bit_or (value * 2 ^ amount % 2 ^ 32) (value / 2 ^ (32 - amount))

-- The four words of the state, and the variables of a block's rounds.
pub record State : Type 0 where
  pub a : ℕ
  pub b : ℕ
  pub c : ℕ
  pub d : ℕ

abbrev pub start : State
start = record { a = 0x6745_2301; b = 0xefcd_ab89; c = 0x98ba_dcfe; d = 0x1032_5476 }

-- The first `n` words of the block.
unfoldable pub block_words : ℕ → List ℕ → List ℕ
block_words zero block = []
block_words (suc i) block = block_words i block ++ (read_u32le (subspan (i * 4) 4 block) ∷ [])

-- `f` and `g` of round `i`.
unfoldable pub round_mix : ℕ → State → ℕ × ℕ
round_mix i s =
    if ltb i 16
    then (bit_or (bit_and s.b s.c) (bit_and (bit_xor s.b 0xffff_ffff) s.d), i)
    else if ltb i 32
    then (bit_or (bit_and s.d s.b) (bit_and (bit_xor s.d 0xffff_ffff) s.c), (5 * i + 1) % 16)
    else if ltb i 48
    then (bit_xor (bit_xor s.b s.c) s.d, (3 * i + 5) % 16)
    else (bit_xor s.c (bit_or s.b (bit_xor s.d 0xffff_ffff)), 7 * i % 16)

unfoldable pub round : ℕ → List ℕ → State → State
round i m s =
    let (f, g) = round_mix i s in
    let sum = (s.a + f + get_or sines i 0 + get_or m g 0) % 2 ^ 32 in
    record { a = s.d; b = (s.b + rotate_left sum (get_or shifts i 0)) % 2 ^ 32; c = s.b; d = s.c }

-- The first `n` rounds.
unfoldable pub rounds : ℕ → List ℕ → State → State
rounds zero m s = s
rounds (suc i) m s = round i m (rounds i m s)

unfoldable pub process_block : State → List ℕ → State
process_block state block =
    let t = rounds 64 (block_words 16 block) state in
    record {
      a = (state.a + t.a) % 2 ^ 32;
      b = (state.b + t.b) % 2 ^ 32;
      c = (state.c + t.c) % 2 ^ 32;
      d = (state.d + t.d) % 2 ^ 32;
    }

-- Eight bytes, the least significant first.
abbrev pub length_bytes : ℕ → List ℕ
length_bytes bits =
    map (λ i. bit_and (bits / 2 ^ (8 * i)) 0xff) (0 ∷ 1 ∷ 2 ∷ 3 ∷ 4 ∷ 5 ∷ 6 ∷ 7 ∷ [])

abbrev pub emit : State → List ℕ
emit s = write_u32le s.a ++ (write_u32le s.b ++ (write_u32le s.c ++ write_u32le s.d))

unfoldable pub digest : List ℕ → List ℕ
digest message = emit (digest_words process_block length_bytes start message)
