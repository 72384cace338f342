-- ===== src/Crypto/Digest/Padding.antt =====
-- src/appwarrior/crypto/src/sha1.cpp and md5.cpp: the digest loop against the padding that the
-- standards describe.
use slopline.Base.{
  ℕ, zero, suc, ◌+◌, ◌-◌, ◌*◌, ◌%◌, ◌^◌, ◌≤◌, ◌<◌, List, [], ◌∷◌, ◌++◌, length, set, take, drop,
  replicate, ◌≡◌, refl, sym, ap, ap₂, ◌∙◌, arith, length-set, length-replicate, append-nil,
  append_assoc,
}
use slopline.Crypto.Digest.{store_at, marked_tail, finish_one, finish_two}

-- The message, a mark, the fewest zeros that leave eight bytes of a whole block, and the length in
-- bits.
abbrev pub pad_zeros : ℕ → ℕ
pad_zeros size = (119 - size % 64) % 64

abbrev pub padding : (ℕ → List ℕ) → ℕ → List ℕ
padding length_bytes size =
    (0x80 ∷ []) ++ replicate (pad_zeros size) 0 ++ length_bytes (size * 8 % 2 ^ 64)

module _ {C : Type 0} (process_block : C → List ℕ → C) where
  -- The first `k` blocks of the message, in order.
  unfoldable pub fold_blocks : ℕ → C → List ℕ → C
  fold_blocks zero state message = state
  fold_blocks (suc k) state message =
      fold_blocks k (process_block state (take 64 message)) (drop 64 message)

length-store_at :
    (bytes : List ℕ) (n : ℕ) (tail : List ℕ) → length (store_at n bytes tail) ≡ length tail
unfolding store_at
length-store_at [] n tail = refl
length-store_at (byte ∷ bytes) n tail =
    length-store_at bytes (suc n) (set tail n byte) ∙ length-set tail n byte

take-set :
    (n : ℕ) (tail : List ℕ) (byte : ℕ)
    → n < length tail
    → take (suc n) (set tail n byte) ≡ take n tail ++ (byte ∷ [])
take-set n [] byte h = absurd (omega arith)
take-set zero (x ∷ tail) byte h = refl
take-set (suc n) (x ∷ tail) byte h = ap (◌∷◌ x) (take-set n tail byte (omega arith))

-- What stands up to the end of the stored bytes.
take-store_at :
    (bytes : List ℕ) (n end : ℕ) (tail : List ℕ)
    → n + length bytes ≡ end
    → end ≤ length tail
    → take end (store_at n bytes tail) ≡ take n tail ++ bytes
unfolding store_at
take-store_at [] n end tail e h =
    ap (λ (k : ℕ). take k tail) {x = end} {y = n} (omega arith) ∙ sym (append-nil (take n tail))
take-store_at (byte ∷ bytes) n end tail e h =
    take-store_at bytes (suc n) end (set tail n byte) (omega arith)
      (omega (arith, length-set tail n byte))
    ∙ ap (λ xs. xs ++ bytes) (take-set n tail byte (omega arith))
    ∙ append_assoc (take n tail) (byte ∷ []) bytes

length-marked_tail : (rest : List ℕ) → length (marked_tail rest).0 ≡ 128
unfolding marked_tail
length-marked_tail rest =
    length-set (store_at 0 rest (replicate 128 0)) (length rest) 0x80
    ∙ length-store_at rest 0 (replicate 128 0)

take-marked_tail :
    (rest : List ℕ)
    → length rest < 64
    → take (suc (length rest)) (marked_tail rest).0 ≡ rest ++ (0x80 ∷ [])
unfolding marked_tail
take-marked_tail rest h =
    let copied = store_at 0 rest (replicate 128 0) in
    take-set (length rest) copied 0x80 (omega (arith, length-store_at rest 0 (replicate 128 0)))
    ∙ ap (λ xs. xs ++ (0x80 ∷ []))
        (take-store_at rest 0 (length rest) (replicate 128 0) (omega arith) (omega arith))

module _ {C : Type 0} (process_block : C → List ℕ → C) where
  pub finish_one_lem :
      (size : List ℕ) (state : C) (rest : List ℕ)
      → length size ≡ 8
      → length rest < 56
      → finish_one process_block size state (marked_tail rest).0 (suc (length rest))
        ≡ process_block state (rest ++ (0x80 ∷ (replicate (56 - suc (length rest)) 0 ++ size)))
  unfolding finish_one
  finish_one_lem size state rest e h =
      let n = length rest in
      let tail = (marked_tail rest).0 in
      let zeros : List ℕ = replicate (56 - suc n) 0 in
      let filled = store_at (suc n) zeros tail in
      let m : length tail ≡ 128 = length-marked_tail rest in
      let full : length filled ≡ 128 = length-store_at zeros (suc n) tail ∙ m in
      let front : take 56 filled ≡ (rest ++ (0x80 ∷ [])) ++ zeros =
        take-store_at zeros (suc n) 56 tail (omega (arith, length-replicate {A = ℕ} (56 - suc n) 0))
          (omega arith)
        ∙ ap (λ xs. xs ++ zeros) (take-marked_tail rest (omega arith)) in
      ap (process_block state) (
        take-store_at size 56 64 filled (omega arith) (omega arith)
        ∙ ap (λ xs. xs ++ size) front
        ∙ append_assoc (rest ++ (0x80 ∷ [])) zeros size
        ∙ append_assoc rest (0x80 ∷ []) (zeros ++ size))

  pub finish_two_lem :
      (size : List ℕ) (state : C) (rest : List ℕ)
      → length size ≡ 8
      → length rest < 64
      → finish_two process_block size state (marked_tail rest).0 (suc (length rest))
        ≡ process_block
            (process_block state (rest ++ (0x80 ∷ replicate (64 - suc (length rest)) 0)))
            (replicate 56 0 ++ size)
  unfolding finish_two
  finish_two_lem size state rest e h =
      let n = length rest in
      let tail = (marked_tail rest).0 in
      let zeros : List ℕ = replicate (64 - suc n) 0 in
      let filled = store_at (suc n) zeros tail in
      let cleared = store_at 0 (replicate 56 0) filled in
      let m : length tail ≡ 128 = length-marked_tail rest in
      let full : length filled ≡ 128 = length-store_at zeros (suc n) tail ∙ m in
      let wide : length cleared ≡ 128 = length-store_at (replicate 56 0) 0 filled ∙ full in
      let front : take 64 filled ≡ rest ++ (0x80 ∷ zeros) =
        take-store_at zeros (suc n) 64 tail (omega (arith, length-replicate {A = ℕ} (64 - suc n) 0))
          (omega arith)
        ∙ ap (λ xs. xs ++ zeros) (take-marked_tail rest h)
        ∙ append_assoc rest (0x80 ∷ []) zeros in
      let back : take 64 (store_at 56 size cleared) ≡ replicate 56 0 ++ size =
        take-store_at size 56 64 cleared (omega arith) (omega arith)
        ∙ ap (λ xs. xs ++ size)
            (take-store_at (replicate 56 0) 0 56 filled (omega arith) (omega arith)) in
      ap₂ process_block (ap (process_block state) front) back
