-- ===== src/Protocol/Cipher/Keys.antt =====
-- src/hotline/protocol/include/hotline/protocol/transaction_cipher.h and key_schedule.h: the keys of
-- a cipher and their schedules, over a MAC whose output has a fixed size.
use slopline.Base.{
  ℕ, zero, suc, Bool, true, false, List, [], ◌∷◌, length, take, drop, All, ◌≡◌, refl,
}
use slopline.Core.Endian.{IsByte}
use slopline.Protocol.Cipher.{
  TransactionCipher, derive_login_keys, permute_key, new_cipher, encode_run, decode_run,
  permute_encode_key, permute_decode_key, encode_body, decode_data,
}

-- A key that `expand_key` takes: its index wraps at the length, which is not 0.
pub record IsKey (size : ℕ) (key : List ℕ) : Type 0 where
  pub sized : length key ≡ size
  pub bytes : All IsByte key

module _ {S : Type 0} (size : ℕ) (hmac_of : List ℕ → List ℕ → List ℕ)
    (keyed : (key message : List ℕ) → IsKey size (hmac_of key message))
    (expand_key : List ℕ → S) where
  -- Both keys are outputs of the MAC, and each schedule is that of its key.
  pub record IsKeyed (c : TransactionCipher S) : Type 0 where
    pub encode_keyed : IsKey size c.encode_key
    pub decode_keyed : IsKey size c.decode_key
    pub encode_scheduled : c.encode_schedule ≡ expand_key c.encode_key
    pub decode_scheduled : c.decode_schedule ≡ expand_key c.decode_key

  permute_key-IsKey :
      (key session_key : List ℕ) (rounds : ℕ)
      → IsKey size key
      → IsKey size (permute_key hmac_of key session_key rounds)
  unfolding permute_key
  permute_key-IsKey key session_key zero h = h
  permute_key-IsKey key session_key (suc rounds) h =
      permute_key-IsKey (hmac_of session_key key) session_key rounds (keyed session_key key)

  module _ (encrypt_block : S → List ℕ → List ℕ) where
    permute_encode_key-IsKeyed :
        (c : TransactionCipher S) (flag : ℕ)
        → IsKeyed c
        → IsKeyed (permute_encode_key hmac_of expand_key encrypt_block c flag)
    unfolding permute_encode_key
    permute_encode_key-IsKeyed c flag h = record {
      encode_keyed = permute_key-IsKey c.encode_key c.session_key flag h.encode_keyed;
      decode_keyed = h.decode_keyed;
      encode_scheduled = refl;
      decode_scheduled = h.decode_scheduled;
    }

    permute_decode_key-IsKeyed :
        (c : TransactionCipher S) (flag : ℕ)
        → IsKeyed c
        → IsKeyed (permute_decode_key hmac_of expand_key encrypt_block c flag)
    unfolding permute_decode_key
    permute_decode_key-IsKeyed c flag h = record {
      encode_keyed = h.encode_keyed;
      decode_keyed = permute_key-IsKey c.decode_key c.session_key flag h.decode_keyed;
      encode_scheduled = h.encode_scheduled;
      decode_scheduled = refl;
    }

    pub encode_run-IsKeyed :
        (c : TransactionCipher S) (buffer : List ℕ)
        → IsKeyed c
        → IsKeyed (encode_run hmac_of expand_key encrypt_block c buffer).1
    unfolding encode_run
    encode_run-IsKeyed c buffer h = record {
      encode_keyed = h.encode_keyed;
      decode_keyed = h.decode_keyed;
      encode_scheduled = h.encode_scheduled;
      decode_scheduled = h.decode_scheduled;
    }

    pub decode_run-IsKeyed :
        (c : TransactionCipher S) (buffer : List ℕ)
        → IsKeyed c
        → IsKeyed (decode_run hmac_of expand_key encrypt_block c buffer).1
    unfolding decode_run
    decode_run-IsKeyed c buffer h = record {
      encode_keyed = h.encode_keyed;
      decode_keyed = h.decode_keyed;
      encode_scheduled = h.encode_scheduled;
      decode_scheduled = h.decode_scheduled;
    }

    pub encode_body-IsKeyed :
        (c : TransactionCipher S) (bytes : List ℕ) (flag : ℕ)
        → IsKeyed c
        → IsKeyed (encode_body hmac_of expand_key encrypt_block c bytes flag).1
    unfolding encode_body
    encode_body-IsKeyed c [] flag h = h
    encode_body-IsKeyed c (b ∷ bytes) zero h = encode_run-IsKeyed c (b ∷ bytes) h
    encode_body-IsKeyed c (b ∷ bytes) (suc flag) h =
        let begun = encode_run hmac_of expand_key encrypt_block c (take 2 (b ∷ bytes)) in
        encode_run-IsKeyed (permute_encode_key hmac_of expand_key encrypt_block begun.1 (suc flag))
          (drop 2 (b ∷ bytes))
          (permute_encode_key-IsKeyed begun.1 (suc flag)
            (encode_run-IsKeyed c (take 2 (b ∷ bytes)) h))

    pub decode_data-IsKeyed :
        (c : TransactionCipher S) (bytes : List ℕ) (flag : ℕ)
        → IsKeyed c
        → IsKeyed (decode_data hmac_of expand_key encrypt_block c bytes flag).1
    unfolding decode_data
    decode_data-IsKeyed c [] flag h = h
    decode_data-IsKeyed c (b ∷ bytes) zero h = decode_run-IsKeyed c (b ∷ bytes) h
    decode_data-IsKeyed c (b ∷ bytes) (suc flag) h =
        let begun = decode_run hmac_of expand_key encrypt_block c (take 2 (b ∷ bytes)) in
        decode_run-IsKeyed (permute_decode_key hmac_of expand_key encrypt_block begun.1 (suc flag))
          (drop 2 (b ∷ bytes))
          (permute_decode_key-IsKeyed begun.1 (suc flag)
            (decode_run-IsKeyed c (take 2 (b ∷ bytes)) h))

    pub new_cipher-IsKeyed :
        (password session_key : List ℕ) (is_client : Bool)
        → IsKeyed (new_cipher hmac_of expand_key encrypt_block password session_key is_client)
    unfolding new_cipher derive_login_keys
    new_cipher-IsKeyed password session_key true = record {
      encode_keyed = keyed _ _;
      decode_keyed = keyed _ _;
      encode_scheduled = refl;
      decode_scheduled = refl;
    }
    new_cipher-IsKeyed password session_key false = record {
      encode_keyed = keyed _ _;
      decode_keyed = keyed _ _;
      encode_scheduled = refl;
      decode_scheduled = refl;
    }
