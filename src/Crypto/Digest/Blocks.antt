-- ===== src/Crypto/Digest/Blocks.antt =====
-- src/appwarrior/crypto/src/sha1.cpp and md5.cpp: the digest loop is the fold over the blocks of the
-- padded message.
use slopline.Base.{
  ℕ, suc, ◌+◌, ◌-◌, ◌*◌, ◌/◌, ◌%◌, ◌^◌, ◌≤◌, ◌<◌, List, ◌∷◌, ◌++◌, length, drop, replicate, ltb,
  lt→ltb, le→ltb, ltb→lt, ltb→le, Bool-cases, inl, inr, ◌≡◌, refl, sym, ap, ap₂, ◌∙◌, arith,
  length-append, length-replicate, length-drop, drop-append_le, append_assoc, replicate_add,
}
use slopline.Crypto.Digest.{absorb, marked_tail, finish, digest_words}
use slopline.Crypto.Digest.Padding.{pad_zeros, padding, fold_blocks, finish_one_lem, finish_two_lem}
use slopline.Crypto.Digest.Loops.{
  fold_blocks-add, fold_blocks-append, absorb_lem, fold_one, fold_two,
}

module _ {C : Type 0} (process_block : C → List ℕ → C) where
  -- The rest of the digest is the fold over the rest with its padding.
  module _ (length_bytes : ℕ → List ℕ) (eight : (n : ℕ) → length (length_bytes n) ≡ 8) (state : C)
      (bytes : ℕ) (rest : List ℕ) (whole : bytes % 64 ≡ 0) (short : length rest < 64) where
    abbrev end_padding : List ℕ
    end_padding = padding length_bytes (bytes + length rest)

    abbrev size_bytes : List ℕ
    size_bytes = length_bytes ((bytes + length rest) * 8 % 2 ^ 64)

    zeros_lem :
        (k : ℕ)
        → pad_zeros (bytes + length rest) ≡ k
        → end_padding ≡ 0x80 ∷ (replicate k 0 ++ size_bytes)
    zeros_lem k e = ap (λ (n : ℕ). 0x80 ∷ (replicate n 0 ++ size_bytes)) e

    length-end_padding : (k : ℕ) → pad_zeros (bytes + length rest) ≡ k → length end_padding ≡ k + 9
    length-end_padding k e = omega (
      arith,
      ap length (zeros_lem k e),
      length-append (replicate k 0) size_bytes,
      length-replicate {A = ℕ} k 0,
      eight ((bytes + length rest) * 8 % 2 ^ 64),
    )

    bits_lem : (bytes + length rest) % 2 ^ 64 * 8 % 2 ^ 64 ≡ (bytes + length rest) * 8 % 2 ^ 64
    bits_lem = omega arith

    -- The sum of the lengths, in blocks.
    count_lem :
        (k j : ℕ)
        → pad_zeros (bytes + length rest) ≡ k
        → length rest + k + 9 ≡ 64 * j
        → (length rest + length end_padding) / 64 ≡ j
    count_lem k j e sum = omega (arith, length-end_padding k e)

    finish_short :
        length rest < 56
        → finish process_block length_bytes state bytes rest
          ≡ fold_blocks process_block
              ((length rest + length end_padding) / 64)
              state
              (rest ++ end_padding)
    unfolding finish marked_tail
    finish_short h =
        let k : ℕ = 56 - suc (length rest) in
        let few : pad_zeros (bytes + length rest) ≡ k = omega arith in
        let block : List ℕ = rest ++ (0x80 ∷ (replicate k 0 ++ size_bytes)) in
        let full : length block ≡ 64 = omega (
          arith,
          length-append rest (0x80 ∷ (replicate k 0 ++ size_bytes)),
          ap length (zeros_lem k few),
          length-end_padding k few,
        ) in
        rw (le→ltb 56 (suc (length rest)) (omega arith), bits_lem)
          (finish_one_lem process_block size_bytes state rest
              (eight ((bytes + length rest) * 8 % 2 ^ 64)) h
            ∙ sym (
                fold_one process_block ((length rest + length end_padding) / 64) state block
                  (count_lem k 1 few (omega arith)) full)
            ∙ ap
                (λ xs.
                  fold_blocks process_block ((length rest + length end_padding) / 64) state
                    (rest ++ xs))
                (sym (zeros_lem k few)))

    finish_long :
        56 ≤ length rest
        → finish process_block length_bytes state bytes rest
          ≡ fold_blocks process_block
              ((length rest + length end_padding) / 64)
              state
              (rest ++ end_padding)
    unfolding finish marked_tail
    finish_long h =
        let m : ℕ = 64 - suc (length rest) in
        let k : ℕ = m + 56 in
        let few : pad_zeros (bytes + length rest) ≡ k = omega arith in
        let front : List ℕ = 0x80 ∷ replicate m 0 in
        let back : List ℕ = replicate 56 0 ++ size_bytes in
        let first : length (rest ++ front) ≡ 64 =
          omega (arith, length-append rest front, length-replicate {A = ℕ} m 0) in
        let second : length back ≡ 64 = omega (arith, eight ((bytes + length rest) * 8 % 2 ^ 64)) in
        let split : (rest ++ front) ++ back ≡ rest ++ end_padding =
          append_assoc rest front back
          ∙ ap (λ xs. rest ++ (0x80 ∷ xs))
              (sym (append_assoc (replicate m 0) (replicate 56 0) size_bytes)
                ∙ ap (λ xs. xs ++ size_bytes) (sym (replicate_add m 56 k 0 refl)))
          ∙ ap (λ xs. rest ++ xs) (sym (zeros_lem k few)) in
        rw (lt→ltb 56 (suc (length rest)) (omega arith), bits_lem)
          (finish_two_lem process_block size_bytes state rest
              (eight ((bytes + length rest) * 8 % 2 ^ 64)) short
            ∙ sym (
                fold_two process_block ((length rest + length end_padding) / 64) state
                  (rest ++ front) back (count_lem k 2 few (omega arith)) first second)
            ∙ ap (fold_blocks process_block ((length rest + length end_padding) / 64) state) split)

    finish_lem :
        finish process_block length_bytes state bytes rest
        ≡ fold_blocks process_block
            ((length rest + length end_padding) / 64)
            state
            (rest ++ end_padding)
    finish_lem = elim (Bool-cases (ltb (length rest) 56)) [
      | inl e ↦ finish_short (ltb→lt (length rest) 56 e)
      | inr e ↦ finish_long (ltb→le (length rest) 56 e)
    ]

  -- The digest is the fold over all the blocks of the padded message.
  module _ (length_bytes : ℕ → List ℕ) (eight : (n : ℕ) → length (length_bytes n) ≡ 8) where
    pub length-padding : (size : ℕ) → (size + length (padding length_bytes size)) % 64 ≡ 0
    length-padding size = omega (
      arith,
      length-append (replicate (pad_zeros size) 0) (length_bytes (size * 8 % 2 ^ 64)),
      length-replicate {A = ℕ} (pad_zeros size) 0,
      eight (size * 8 % 2 ^ 64),
    )

    pub digest_words_lem :
        (start : C) (message : List ℕ)
        → length message < 2 ^ 64
        → digest_words process_block length_bytes start message
          ≡ fold_blocks process_block
              (length (message ++ padding length_bytes (length message)) / 64)
              start
              (message ++ padding length_bytes (length message))
    unfolding digest_words
    digest_words_lem start message h =
        let n = length message in
        let k : ℕ = n / 64 in
        let bytes : ℕ = 64 * k in
        let rest = drop bytes message in
        let r : length rest ≡ n - bytes = length-drop bytes message in
        let sum : bytes + length rest ≡ n = omega arith in
        let pad = padding length_bytes n in
        let state = fold_blocks process_block k start message in
        let more : ℕ = (length rest + length pad) / 64 in
        let taken : absorb process_block n start 0 message ≡ (state, bytes, rest) =
          absorb_lem process_block n k start 0 message (omega arith) (omega arith) (omega arith)
            (omega arith)
          ∙ ap (λ (t : ℕ). (state, t, rest)) (omega arith) in
        let count : k + more ≡ length (message ++ pad) / 64 =
          omega (arith, length-append message pad) in
        ap (λ (t : C × ℕ × List ℕ). finish process_block length_bytes t.0 t.1 t.2) taken
        ∙ finish_lem length_bytes eight state bytes rest (omega arith) (omega arith)
        ∙ ap
            (λ (t : ℕ).
              fold_blocks process_block ((length rest + length (padding length_bytes t)) / 64) state
                (rest ++ padding length_bytes t))
            sum
        ∙ ap₂ (λ (s : C) xs. fold_blocks process_block more s xs)
            (sym (fold_blocks-append process_block k start message pad (omega arith)))
            (sym (drop-append_le bytes message pad (omega arith)))
        ∙ sym (fold_blocks-add process_block k more start (message ++ pad))
        ∙ ap (λ (t : ℕ). fold_blocks process_block t start (message ++ pad)) count
