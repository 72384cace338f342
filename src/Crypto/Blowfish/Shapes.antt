-- ===== src/Crypto/Blowfish/Shapes.antt =====
-- src/appwarrior/crypto/src/blowfish.cpp: the shape and the width of a key schedule, and what every
-- step of its expansion keeps of them.
use slopline.Base.{
  ℕ, zero, suc, ◌+◌, ◌*◌, ◌%◌, ◌^◌, ◌<◌, true, List, [], ◌∷◌, All, All-set, All-get_or,
  All-get_or_any, length, set, length-set, get_or, all, all→All, ltb, ltb→lt, bit_or, bit_xor, ◌≡◌,
  refl, ap, arith, ◌∙◌,
}
use slopline.Bits.Xor.{xor-lt}
use slopline.Bits.Fields.{or_disjoint}
use slopline.Core.Endian.{IsByte}
use slopline.Crypto.Blowfish.{
  Schedule, subkey, round_function, feistel_round, encrypt_rounds, whitened, encrypt_words,
  key_word, mix_key, next_index, store_subkeys, store_box_words, fill_subkeys, fill_box, fill_boxes,
  expand_key,
}
use slopline.Crypto.Blowfish.Tables.{parray_pi, sbox0, sbox1, sbox2, sbox3}

abbrev pub IsWord : ℕ → Type 0
IsWord word = word < 2 ^ 32

abbrev pub AreWords : ℕ × ℕ → Type 0
AreWords words = IsWord words.0 × IsWord words.1

abbrev pub IsBox : List ℕ → Type 0
IsBox box = (length box ≡ 256) × All IsWord box

pub record IsSchedule (key : Schedule) : Type 0 where
  pub subkeys : length key.p ≡ 18
  pub subkey_words : All IsWord key.p
  pub boxes : length key.s ≡ 4
  pub box_words : All IsBox key.s

subkey-lt : (key : Schedule) (i : ℕ) → IsSchedule key → i < 18 → IsWord (subkey key i)
subkey-lt key i h lt = All-get_or IsWord key.p i 0 (omega (arith, h.subkeys)) h.subkey_words

round_function-lt : (x : ℕ) (key : Schedule) → IsWord (round_function x key)
unfolding round_function
round_function-lt x key = omega arith

feistel_round-AreWords :
    (key : Schedule) (i : ℕ) (words : ℕ × ℕ)
    → IsSchedule key
    → i < 18
    → AreWords words
    → AreWords (feistel_round key i words)
unfolding feistel_round
feistel_round-AreWords key i (l, r) h lt w =
    let mixed = bit_xor l (subkey key i) in
    (
      xor-lt 32 (round_function mixed key) r (round_function-lt mixed key) w.1,
      xor-lt 32 l (subkey key i) w.0 (subkey-lt key i h lt),
    )

encrypt_rounds-AreWords :
    (n : ℕ) (key : Schedule) (words : ℕ × ℕ)
    → IsSchedule key
    → n < 18
    → AreWords words
    → AreWords (encrypt_rounds n key words)
unfolding encrypt_rounds
encrypt_rounds-AreWords zero key words h lt w = w
encrypt_rounds-AreWords (suc n) key words h lt w =
    feistel_round-AreWords key n (encrypt_rounds n key words) h (omega arith)
      (encrypt_rounds-AreWords n key words h (omega arith) w)

pub encrypt_words-AreWords :
    (words : ℕ × ℕ) (key : Schedule)
    → IsSchedule key
    → AreWords words
    → AreWords (encrypt_words words key)
unfolding encrypt_words whitened
encrypt_words-AreWords words key h w =
    let ends = encrypt_rounds 16 key words in
    let e : AreWords ends = encrypt_rounds-AreWords 16 key words h (omega arith) w in
    (
      xor-lt 32 ends.1 (subkey key 17) e.1 (subkey-lt key 17 h (omega arith)),
      xor-lt 32 ends.0 (subkey key 16) e.0 (subkey-lt key 16 h (omega arith)),
    )

store_subkeys-IsSchedule :
    (i : ℕ) (words : ℕ × ℕ) (out : Schedule)
    → IsSchedule out
    → AreWords words
    → IsSchedule (store_subkeys i words out)
store_subkeys-IsSchedule i (l, r) out h w = record {
  boxes = h.boxes;
  box_words = h.box_words;
  subkeys = length-set (set out.p i l) (suc i) r ∙ length-set out.p i l ∙ h.subkeys;
  subkey_words =
      All-set IsWord (set out.p i l) (suc i) r (All-set IsWord out.p i l h.subkey_words w.0) w.1;
}

store_box_words-IsSchedule :
    (box j : ℕ) (words : ℕ × ℕ) (out : Schedule)
    → IsSchedule out
    → box < 4
    → AreWords words
    → IsSchedule (store_box_words box j words out)
store_box_words-IsSchedule box j (l, r) out h lt w =
    let old = get_or out.s box [] in
    let shape : IsBox old = All-get_or IsBox out.s box [] (omega (arith, h.boxes)) h.box_words in
    record {
      subkeys = h.subkeys;
      subkey_words = h.subkey_words;
      boxes = length-set out.s box (set (set old j l) (suc j) r) ∙ h.boxes;
      box_words = All-set IsBox out.s box (set (set old j l) (suc j) r) h.box_words (
        length-set (set old j l) (suc j) r ∙ length-set old j l ∙ shape.0,
        All-set IsWord (set old j l) (suc j) r (All-set IsWord old j l shape.1 w.0) w.1,
      );
    }

fill_subkeys-IsSchedule :
    (n i : ℕ) (words : ℕ × ℕ) (out : Schedule)
    → IsSchedule out
    → AreWords words
    → AreWords (fill_subkeys n i words out).0 × IsSchedule (fill_subkeys n i words out).1
unfolding fill_subkeys
fill_subkeys-IsSchedule zero i words out h w = (w, h)
fill_subkeys-IsSchedule (suc n) i words out h w =
    let next = encrypt_words words out in
    let k : AreWords next = encrypt_words-AreWords words out h w in
    fill_subkeys-IsSchedule n (i + 2) next (store_subkeys i next out)
      (store_subkeys-IsSchedule i next out h k) k

fill_box-IsSchedule :
    (n box j : ℕ) (words : ℕ × ℕ) (out : Schedule)
    → IsSchedule out
    → box < 4
    → AreWords words
    → AreWords (fill_box n box j words out).0 × IsSchedule (fill_box n box j words out).1
unfolding fill_box
fill_box-IsSchedule zero box j words out h lt w = (w, h)
fill_box-IsSchedule (suc n) box j words out h lt w =
    let next = encrypt_words words out in
    let k : AreWords next = encrypt_words-AreWords words out h w in
    fill_box-IsSchedule n box (j + 2) next (store_box_words box j next out)
      (store_box_words-IsSchedule box j next out h lt k) lt k

fill_boxes-IsSchedule :
    (n box : ℕ) (words : ℕ × ℕ) (out : Schedule)
    → IsSchedule out
    → n + box < 5
    → AreWords words
    → IsSchedule (fill_boxes n box words out)
unfolding fill_boxes
fill_boxes-IsSchedule zero box words out h lt w = h
fill_boxes-IsSchedule (suc n) box words out h lt w =
    let filled = fill_box 128 box 0 words out in
    let k = fill_box-IsSchedule 128 box 0 words out h (omega arith) w in
    fill_boxes-IsSchedule n (suc box) filled.0 filled.1 k.1 (omega arith) k.0

key_word-IsWord :
    (n word k : ℕ) (key : List ℕ) → IsWord word → All IsByte key → IsWord (key_word n word k key).0
unfolding key_word
key_word-IsWord zero word k key w h = w
key_word-IsWord (suc n) word k key w h =
    let byte = get_or key k 0 in
    let b : byte < 256 = All-get_or_any IsByte key k 0 (omega arith) h in
    let sum : bit_or (word * 2 ^ 8 % 2 ^ 32) byte ≡ word * 2 ^ 8 % 2 ^ 32 + byte =
      or_disjoint 8 (word * 2 ^ 8 % 2 ^ 32) byte (omega arith) (omega arith) in
    key_word-IsWord n (bit_or (word * 2 ^ 8 % 2 ^ 32) byte) (next_index k key) key (omega arith) h

mix_key-words :
    (p : List ℕ) (k : ℕ) (key : List ℕ)
    → All IsByte key
    → All IsWord p
    → (length (mix_key p k key) ≡ length p) × All IsWord (mix_key p k key)
unfolding mix_key
mix_key-words [] k key h w = (refl, tt)
mix_key-words (x ∷ p) k key h w =
    let word = key_word 4 0 k key in
    let rest = mix_key-words p word.1 key h w.1 in
    (ap suc rest.0, (xor-lt 32 x word.0 w.0 (key_word-IsWord 4 0 k key (omega arith) h), rest.1))

table_words : (table : List ℕ) → all (λ x. ltb x (2 ^ 32)) table ≡ true → All IsWord table
table_words table = all→All (λ x. ltb x (2 ^ 32)) IsWord table λ x. ltb→lt x (2 ^ 32)

-- The schedule of every key of bytes has the shape of the arrays, and words of 32 bits.
pub expand_key-IsSchedule : (key : List ℕ) → All IsByte key → IsSchedule (expand_key key)
unfolding expand_key
expand_key-IsSchedule key h =
    let mixed : Schedule = record {
      p = mix_key parray_pi 0 key;
      s = sbox0 ∷ sbox1 ∷ sbox2 ∷ sbox3 ∷ [];
    } in
    let p = mix_key-words parray_pi 0 key h (table_words parray_pi refl) in
    let start : IsSchedule mixed = record {
      subkeys = p.0;
      subkey_words = p.1;
      boxes = refl;
      box_words = (
        (refl, table_words sbox0 refl),
        (
          (refl, table_words sbox1 refl),
          ((refl, table_words sbox2 refl), ((refl, table_words sbox3 refl), tt)),
        ),
      );
    } in
    let filled = fill_subkeys 9 0 (0, 0) mixed in
    let k = fill_subkeys-IsSchedule 9 0 (0, 0) mixed start (omega arith, omega arith) in
    fill_boxes-IsSchedule 4 0 filled.0 filled.1 k.1 (omega arith) k.0
