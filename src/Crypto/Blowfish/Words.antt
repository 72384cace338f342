-- ===== src/Crypto/Blowfish/Words.antt =====
-- src/appwarrior/crypto/src/blowfish.cpp: the rounds downwards undo the rounds upwards.
use slopline.Base.{ℕ, zero, suc, bit_xor, ◌≡◌, refl, ap, ap₂, ◌∙◌}
use slopline.Bits.Xor.{xor_cancel, xor_cancel_left, xor_assoc}
use slopline.Crypto.Blowfish.{
  Schedule, subkey, round_function, feistel_round, encrypt_rounds, decrypt_rounds, whitened,
  encrypt_words, decrypt_words,
}

-- The words after round `n - 1` as the loop downwards sees them: swapped, under the next subkeys.
masked : Schedule → ℕ → ℕ × ℕ → ℕ × ℕ
masked key n (l, r) = (bit_xor r (subkey key (suc n)), bit_xor l (subkey key n))

-- One round downwards undoes one round upwards.
round-round :
    (key : Schedule) (n : ℕ) (words : ℕ × ℕ)
    → feistel_round key (suc (suc n)) (masked key (suc n) (feistel_round key n words))
      ≡ masked key n words
unfolding masked feistel_round
round-round key n (l, r) =
    let mixed = bit_xor l (subkey key n) in
    let f = round_function mixed key in
    let p = subkey key (suc n) in
    let q = subkey key (suc (suc n)) in
    let undone : bit_xor (bit_xor mixed q) q ≡ mixed = xor_cancel mixed q in
    let right : bit_xor f (bit_xor (bit_xor f r) p) ≡ bit_xor r p =
      ap (bit_xor f) (xor_assoc f r p) ∙ xor_cancel_left f (bit_xor r p) in
    ap (λ (x : ℕ). (bit_xor (round_function x key) (bit_xor (bit_xor f r) p), x)) undone
    ∙ ap (λ (y : ℕ). (y, mixed)) right

rounds-rounds :
    (n : ℕ) (key : Schedule) (words : ℕ × ℕ)
    → decrypt_rounds n key (masked key n (encrypt_rounds n key words)) ≡ masked key 0 words
unfolding decrypt_rounds encrypt_rounds
rounds-rounds zero key words = refl
rounds-rounds (suc n) key words =
    ap (decrypt_rounds n key) (round-round key n (encrypt_rounds n key words))
    ∙ rounds-rounds n key words

pub decrypt_words-encrypt_words :
    (key : Schedule) (words : ℕ × ℕ) → decrypt_words (encrypt_words words key) key ≡ words
unfolding decrypt_words encrypt_words whitened masked
decrypt_words-encrypt_words key (l, r) =
    ap (whitened key 1 0) (rounds-rounds 16 key (l, r))
    ∙ ap₂ (λ (x y : ℕ). (x, y)) (xor_cancel l (subkey key 0)) (xor_cancel r (subkey key 1))
