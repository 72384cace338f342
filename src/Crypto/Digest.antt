-- ===== src/Crypto/Digest.antt =====
-- src/appwarrior/crypto/src/sha1.cpp and md5.cpp: what the two `digest` functions share, over
-- `process_block` and the order of the eight length bytes. A state is the words that `process_block`
-- changes, and the count of bytes.
pub mod Padding
pub mod Loops
pub mod Blocks
use slopline.Base.{
  ℕ, zero, suc, ◌+◌, ◌-◌, ◌*◌, ◌%◌, ◌^◌, Bool, true, false, List, [], ◌∷◌, length, set, take, drop,
  replicate, ltb, if◌then◌else◌,
}

-- `tail[n] = byte; ++n;` for each byte.
unfoldable pub store_at : ℕ → List ℕ → List ℕ → List ℕ
store_at n [] tail = tail
store_at n (byte ∷ bytes) tail = store_at (suc n) bytes (set tail n byte)

-- The tail with the mark in it, and `n` behind the mark.
unfoldable pub marked_tail : List ℕ → List ℕ × ℕ
marked_tail rest =
    let copied = store_at 0 rest (replicate 128 0) in
    (set copied (length rest) 0x80, suc (length rest))

module _ {C : Type 0} (process_block : C → List ℕ → C) where
  -- The loop over whole blocks, with the bytes that remain; the fuel is the length of the message.
  unfoldable pub absorb : ℕ → C → ℕ → List ℕ → C × ℕ × List ℕ
  absorb zero state bytes message = (state, bytes, message)
  absorb (suc fuel) state bytes message = elim (ltb (length message) 64) [
    | true ↦ (state, bytes, message)
    | false ↦
        absorb fuel (process_block state (take 64 message)) ((bytes + 64) % 2 ^ 64)
          (drop 64 message)
  ]

  -- The mark leaves no room for the length: a block of zeros from `n`, and another for the length.
  unfoldable pub finish_two : List ℕ → C → List ℕ → ℕ → C
  finish_two size state tail n =
      let filled = store_at n (replicate (64 - n) 0) tail in
      let next = process_block state (take 64 filled) in
      let cleared = store_at 0 (replicate 56 0) filled in
      process_block next (take 64 (store_at 56 size cleared))

  unfoldable pub finish_one : List ℕ → C → List ℕ → ℕ → C
  finish_one size state tail n =
      let filled = store_at n (replicate (56 - n) 0) tail in
      process_block state (take 64 (store_at 56 size filled))

  unfoldable pub finish : (ℕ → List ℕ) → C → ℕ → List ℕ → C
  finish length_bytes state bytes rest =
      let bit_length = (bytes + length rest) % 2 ^ 64 * 8 % 2 ^ 64 in
      let (tail, n) = marked_tail rest in
      if ltb 56 n
      then finish_two (length_bytes bit_length) state tail n
      else finish_one (length_bytes bit_length) state tail n

  unfoldable pub digest_words : (ℕ → List ℕ) → C → List ℕ → C
  digest_words length_bytes start message =
      let (state, bytes, rest) = absorb (length message) start 0 message in
      finish length_bytes state bytes rest
