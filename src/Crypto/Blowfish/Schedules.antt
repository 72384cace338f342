-- ===== src/Crypto/Blowfish/Schedules.antt =====
-- src/appwarrior/crypto/src/blowfish.cpp: the block cipher at the schedule of a key.
use slopline.Base.{
  ℕ, List, All, All-append, All-take, All-drop, take, drop, subspan, ◌++◌, length, ◌≡◌, refl, ap,
  ap₂, arith, length-drop, length-take, take_all, take-append-drop, ◌∙◌,
}
use slopline.Core.Endian.{IsByte, write_u32be}
use slopline.Core.Endian.Laws.{read_u32be-lt, read-write_u32be, write_u32be-IsByte, four_read}
use slopline.Crypto.Blowfish.Words.{decrypt_words-encrypt_words}
use slopline.Crypto.Blowfish.{
  Schedule, encrypt_words, decrypt_words, expand_key, block_words, words_block, encrypt_block,
  decrypt_block,
}
use slopline.Crypto.Blowfish.Shapes.{AreWords, encrypt_words-AreWords, expand_key-IsSchedule}

-- A block of eight bytes is its two words.
words_block-block_words :
    (block : List ℕ) → length block ≡ 8 → All IsByte block → words_block (block_words block) ≡ block
words_block-block_words block e h =
    let left = take 4 block in
    let right = subspan 4 4 block in
    let n : length (drop 4 block) ≡ 4 = omega (arith, length-drop 4 block) in
    ap₂ ◌++◌ (four_read left (omega (arith, length-take 4 block)) (All-take IsByte 4 block h)) (
      four_read right (omega (arith, length-take 4 (drop 4 block)))
        (All-take IsByte 4 (drop 4 block) (All-drop IsByte 4 block h)))
    ∙ ap (◌++◌ left) (take_all 4 (drop 4 block) (omega arith))
    ∙ take-append-drop 4 block

block_words-AreWords : (block : List ℕ) → All IsByte block → AreWords (block_words block)
block_words-AreWords block h = (
  read_u32be-lt (take 4 block) (All-take IsByte 4 block h),
  read_u32be-lt (subspan 4 4 block) (All-take IsByte 4 (drop 4 block) (All-drop IsByte 4 block h)),
)

block_words-words_block : (words : ℕ × ℕ) → AreWords words → block_words (words_block words) ≡ words
unfolding write_u32be
block_words-words_block (l, r) w =
    ap₂ (λ (x y : ℕ). (x, y)) (read-write_u32be l w.0) (read-write_u32be r w.1)

-- Decryption with the schedule of any key of bytes gives back the block that encryption took.
pub decrypt_block-encrypt_block :
    (key block : List ℕ)
    → All IsByte key
    → length block ≡ 8
    → All IsByte block
    → decrypt_block (expand_key key) (encrypt_block (expand_key key) block) ≡ block
unfolding decrypt_block encrypt_block
decrypt_block-encrypt_block key block k e h =
    let schedule = expand_key key in
    let words = block_words block in
    let sealed = encrypt_words words schedule in
    let w : AreWords sealed =
      encrypt_words-AreWords words schedule (expand_key-IsSchedule key k)
        (block_words-AreWords block h) in
    ap (λ (t : ℕ × ℕ). words_block (decrypt_words t schedule)) (block_words-words_block sealed w)
    ∙ ap words_block (decrypt_words-encrypt_words schedule words)
    ∙ words_block-block_words block e h

-- A block of output has eight bytes, whatever the schedule.
pub encrypt_block-bytes :
    (key : Schedule) (block : List ℕ)
    → (length (encrypt_block key block) ≡ 8) × All IsByte (encrypt_block key block)
unfolding encrypt_block write_u32be
encrypt_block-bytes key block =
    let words = encrypt_words (block_words block) key in
    (
      refl,
      All-append IsByte (write_u32be words.0) (write_u32be words.1) (write_u32be-IsByte words.0)
          (write_u32be-IsByte words.1),
    )
