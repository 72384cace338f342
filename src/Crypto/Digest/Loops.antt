-- ===== src/Crypto/Digest/Loops.antt =====
-- src/appwarrior/crypto/src/sha1.cpp and md5.cpp: the fold over whole blocks, and the loop that takes
-- them off the front.
use slopline.Base.{
  ℕ, zero, suc, ◌+◌, ◌*◌, ◌%◌, ◌^◌, ◌≤◌, ◌<◌, List, ◌++◌, length, take, drop, lt→ltb, le→ltb, ◌≡◌,
  refl, ap, ap₂, ◌∙◌, arith, length-drop, take-append, drop-append, take-append_le, drop-append_le,
  take_all, drop-drop,
}
use slopline.Crypto.Digest.{absorb}
use slopline.Crypto.Digest.Padding.{fold_blocks}

module _ {C : Type 0} (process_block : C → List ℕ → C) where
  pub fold_blocks-add :
      (j k : ℕ) (state : C) (message : List ℕ)
      → fold_blocks process_block (j + k) state message
        ≡ fold_blocks process_block k
            (fold_blocks process_block j state message)
            (drop (64 * j) message)
  unfolding fold_blocks
  fold_blocks-add zero k state message =
      ap₂ (λ (m n : ℕ). fold_blocks process_block m state (drop n message)) {x = 0 + k} {y = k}
        {u = 0} {v = 64 * 0} (omega arith) (omega arith)
  fold_blocks-add (suc j) k state message =
      let next = process_block state (take 64 message) in
      ap (λ (n : ℕ). fold_blocks process_block n state message) {x = suc j + k} {y = suc (j + k)}
        (omega arith)
      ∙ fold_blocks-add j k next (drop 64 message)
      ∙ ap (fold_blocks process_block k (fold_blocks process_block j next (drop 64 message))) (
          drop-drop 64 (64 * j) message
          ∙ ap (λ (n : ℕ). drop n message) {x = 64 + 64 * j} {y = 64 * suc j} (omega arith))

  -- What stands behind the blocks does not matter.
  pub fold_blocks-append :
      (k : ℕ) (state : C) (message rest : List ℕ)
      → 64 * k ≤ length message
      → fold_blocks process_block k state (message ++ rest)
        ≡ fold_blocks process_block k state message
  unfolding fold_blocks
  fold_blocks-append zero state message rest h = refl
  fold_blocks-append (suc k) state message rest h =
      ap₂ (λ (s : C) xs. fold_blocks process_block k s xs)
        (ap (process_block state) (take-append_le 64 message rest (omega arith)))
        (drop-append_le 64 message rest (omega arith))
      ∙ fold_blocks-append k (process_block state (take 64 message)) (drop 64 message) rest
          (omega (arith, length-drop 64 message))

  -- The loop takes every whole block, counts their bytes, and leaves the rest.
  pub absorb_lem :
      (fuel k : ℕ) (state : C) (bytes : ℕ) (message : List ℕ)
      → k ≤ fuel
      → 64 * k ≤ length message
      → length message < 64 * suc k
      → bytes < 2 ^ 64
      → absorb process_block fuel state bytes message ≡ (
        fold_blocks process_block k state message,
        (bytes + 64 * k) % 2 ^ 64,
        drop (64 * k) message,
      )
  unfolding absorb fold_blocks
  absorb_lem zero zero state bytes message h lo hi w =
      ap₂ (λ (n j : ℕ). (state, n, drop j message)) {x = bytes} {u = 0} {v = 64 * 0} (omega arith)
        (omega arith)
  absorb_lem (suc fuel) zero state bytes message h lo hi w =
      rw (lt→ltb (length message) 64 (omega arith), absorb)
        (ap₂ (λ (n j : ℕ). (state, n, drop j message)) {x = bytes} {u = 0} {v = 64 * 0}
          (omega arith) (omega arith))
  absorb_lem zero (suc k) state bytes message h lo hi w = absurd (omega arith)
  absorb_lem (suc fuel) (suc k) state bytes message h lo hi w =
      let next = process_block state (take 64 message) in
      let n = length-drop 64 message in
      rw (le→ltb (length message) 64 (omega arith), absorb)
        (absorb_lem fuel k next ((bytes + 64) % 2 ^ 64) (drop 64 message) (omega arith)
            (omega arith) (omega arith) (omega arith)
          ∙ ap₂ (λ (m : ℕ) xs. (fold_blocks process_block k next (drop 64 message), m, xs))
              (omega arith)
              (drop-drop 64 (64 * k) message
                ∙ ap (λ (j : ℕ). drop j message) {x = 64 + 64 * k} {y = 64 * suc k} (omega arith)))

  pub fold_one :
      (k : ℕ) (state : C) (block : List ℕ)
      → k ≡ 1
      → length block ≡ 64
      → fold_blocks process_block k state block ≡ process_block state block
  unfolding fold_blocks
  fold_one k state block e h =
      ap (λ (n : ℕ). fold_blocks process_block n state block) e
      ∙ ap (process_block state) (take_all 64 block (omega arith))

  pub fold_two :
      (k : ℕ) (state : C) (first second : List ℕ)
      → k ≡ 2
      → length first ≡ 64
      → length second ≡ 64
      → fold_blocks process_block k state (first ++ second)
        ≡ process_block (process_block state first) second
  unfolding fold_blocks
  fold_two k state first second e h g =
      ap (λ (n : ℕ). fold_blocks process_block n state (first ++ second)) e
      ∙ ap₂ (λ xs ys. process_block (process_block state xs) (take 64 ys))
          (take-append 64 first second h) (drop-append 64 first second h)
      ∙ ap (process_block (process_block state first)) (take_all 64 second (omega arith))
