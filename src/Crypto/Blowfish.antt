-- ===== src/Crypto/Blowfish.antt =====
-- src/appwarrior/crypto/include/appwarrior/crypto/blowfish.h and src/blowfish.cpp: the key schedule
-- and the block cipher. An array is a list of its length; a word keeps its wrap-around written out.
pub mod Tables
pub mod Words
pub mod Shapes
pub mod Schedules
use slopline.Base.{
  ℕ, zero, suc, ◌+◌, ◌*◌, ◌/◌, ◌%◌, ◌^◌, List, [], ◌∷◌, ◌++◌, get_or, set, length, subspan, take,
  bit_and, bit_or, bit_xor,
}
use slopline.Core.Endian.{read_u32be, write_u32be}
use slopline.Crypto.Blowfish.Tables.{parray_pi, sbox0, sbox1, sbox2, sbox3}

pub record Schedule : Type 0 where
  pub p : List ℕ
  pub s : List (List ℕ)

-- `key.p[i]` and `key.s[box][i]`.
abbrev pub subkey : Schedule → ℕ → ℕ
subkey key i = get_or key.p i 0

abbrev pub box_word : Schedule → ℕ → ℕ → ℕ
box_word key box i = get_or (get_or key.s box []) i 0

unfoldable pub round_function : ℕ → Schedule → ℕ
round_function x key =
    let a = bit_and (x / 2 ^ 24) 0xff in
    let b = bit_and (x / 2 ^ 16) 0xff in
    let c = bit_and (x / 2 ^ 8) 0xff in
    let d = bit_and x 0xff in
    let y = (box_word key 0 a + box_word key 1 b) % 2 ^ 32 in
    (bit_xor y (box_word key 2 c) + box_word key 3 d) % 2 ^ 32

-- The body of both loops, at subkey `i`; the two words are swapped at its end.
unfoldable pub feistel_round : Schedule → ℕ → ℕ × ℕ → ℕ × ℕ
feistel_round key i (l, r) =
    let mixed = bit_xor l (subkey key i) in (bit_xor (round_function mixed key) r, mixed)

-- The first `n` rounds of the loop upwards from 0.
unfoldable pub encrypt_rounds : ℕ → Schedule → ℕ × ℕ → ℕ × ℕ
encrypt_rounds zero key words = words
encrypt_rounds (suc n) key words = feistel_round key n (encrypt_rounds n key words)

-- The last `n` rounds of the loop downwards, the first of them at `i = n + 1`.
unfoldable pub decrypt_rounds : ℕ → Schedule → ℕ × ℕ → ℕ × ℕ
decrypt_rounds zero key words = words
decrypt_rounds (suc n) key words = decrypt_rounds n key (feistel_round key (suc (suc n)) words)

-- Behind the loop: the swap, and the two subkeys left for the right and the left word.
unfoldable pub whitened : Schedule → ℕ → ℕ → ℕ × ℕ → ℕ × ℕ
whitened key right left (l, r) = (bit_xor r (subkey key left), bit_xor l (subkey key right))

unfoldable pub encrypt_words : ℕ × ℕ → Schedule → ℕ × ℕ
encrypt_words words key = whitened key 16 17 (encrypt_rounds 16 key words)

unfoldable pub decrypt_words : ℕ × ℕ → Schedule → ℕ × ℕ
decrypt_words words key = whitened key 1 0 (decrypt_rounds 16 key words)

-- `(k + 1) % key.size()`.
abbrev pub next_index : ℕ → List ℕ → ℕ
next_index k key = (k + 1) % length key

-- The next `n` bytes of the key, wrapping, as one word behind `word`.
unfoldable pub key_word : ℕ → ℕ → ℕ → List ℕ → ℕ × ℕ
key_word zero word k key = (word, k)
key_word (suc n) word k key =
    key_word n (bit_or (word * 2 ^ 8 % 2 ^ 32) (get_or key k 0)) (next_index k key) key

-- The subkeys of `p` from here on.
unfoldable pub mix_key : List ℕ → ℕ → List ℕ → List ℕ
mix_key [] k key = []
mix_key (x ∷ p) k key = let (word, next) = key_word 4 0 k key in bit_xor x word ∷ mix_key p next key

-- `out.p[i]` and `out.p[i + 1]` take the two words.
abbrev pub store_subkeys : ℕ → ℕ × ℕ → Schedule → Schedule
store_subkeys i (l, r) out = record out { p = set (set out.p i l) (suc i) r }

abbrev pub store_box_words : ℕ → ℕ → ℕ × ℕ → Schedule → Schedule
store_box_words box j (l, r) out = record out {
  s = set out.s box (set (set (get_or out.s box []) j l) (suc j) r);
}

-- `n` rounds of the loop over `p`, from index `i`; the words are those of the round before.
unfoldable pub fill_subkeys : ℕ → ℕ → ℕ × ℕ → Schedule → (ℕ × ℕ) × Schedule
fill_subkeys zero i words out = (words, out)
fill_subkeys (suc n) i words out =
    let next = encrypt_words words out in fill_subkeys n (i + 2) next (store_subkeys i next out)

unfoldable pub fill_box : ℕ → ℕ → ℕ → ℕ × ℕ → Schedule → (ℕ × ℕ) × Schedule
fill_box zero box j words out = (words, out)
fill_box (suc n) box j words out =
    let next = encrypt_words words out in
    fill_box n box (j + 2) next (store_box_words box j next out)

unfoldable pub fill_boxes : ℕ → ℕ → ℕ × ℕ → Schedule → Schedule
fill_boxes zero box words out = out
fill_boxes (suc n) box words out =
    let (next, filled) = fill_box 128 box 0 words out in fill_boxes n (suc box) next filled

unfoldable pub expand_key : List ℕ → Schedule
expand_key key =
    let mixed : Schedule = record {
      p = mix_key parray_pi 0 key;
      s = sbox0 ∷ sbox1 ∷ sbox2 ∷ sbox3 ∷ [];
    } in
    let (words, out) = fill_subkeys 9 0 (0, 0) mixed in fill_boxes 4 0 words out

-- The two words of a block, and the block of two words.
abbrev pub block_words : List ℕ → ℕ × ℕ
block_words block = (read_u32be (take 4 block), read_u32be (subspan 4 4 block))

abbrev pub words_block : ℕ × ℕ → List ℕ
words_block (l, r) = write_u32be l ++ write_u32be r

unfoldable pub encrypt_block : Schedule → List ℕ → List ℕ
encrypt_block key block = words_block (encrypt_words (block_words block) key)

-- With the schedule of the decode key.
unfoldable pub decrypt_block : Schedule → List ℕ → List ℕ
decrypt_block key block = words_block (decrypt_words (block_words block) key)
