-- ===== src/Protocol/Cipher.antt =====
-- src/hotline/protocol/include/hotline/protocol/transaction_cipher.h and key_schedule.h, over
-- src/appwarrior/crypto/include/appwarrior/crypto/hmac.h and the stream of blowfish.h. The digest,
-- and the block cipher with its key schedule, are parameters.
pub mod Steps
pub mod Keys
pub mod Suites
use slopline.Base.{
  ℕ, zero, suc, ◌+◌, ◌-◌, ◌/◌, ◌%◌, ◌^◌, ◌||◌, Bool, true, false, List, [], ◌∷◌, ◌++◌, map,
  replicate, length, take, drop, get_or, ltb, ◌==◌, if◌then◌else◌, bit_and, bit_xor,
}

module _ (block_size : ℕ) (digest : List ℕ → List ℕ) where
  -- The key, hashed if it is too long, and zeros up to the block size.
  unfoldable pub padded_key : List ℕ → List ℕ
  padded_key key =
      let k = if ltb block_size (length key) then digest key else key in
      k ++ replicate (block_size - length k) 0

  unfoldable pub hmac : List ℕ → List ℕ → List ℕ
  hmac key message =
      let k = padded_key key in
      digest
        (map (λ byte. bit_xor byte 0x5c) k ++ digest (map (λ byte. bit_xor byte 0x36) k ++ message))

pub record LoginKeys : Type 0 where
  pub first : List ℕ
  pub second : List ℕ

-- Over `hmac<H>`.
module _ (hmac_of : List ℕ → List ℕ → List ℕ) where
  unfoldable pub derive_login_keys : List ℕ → List ℕ → LoginKeys
  derive_login_keys password session_key =
      let first = hmac_of password (hmac_of password session_key) in
      record { first = first; second = hmac_of password first }

  unfoldable pub permute_key : List ℕ → List ℕ → ℕ → List ℕ
  permute_key key session_key zero = key
  permute_key key session_key (suc rounds) =
      permute_key (hmac_of session_key key) session_key rounds

-- Blowfish::Ofb64.
pub record Ofb64 : Type 0 where
  pub iv : List ℕ
  pub offset : ℕ

abbrev pub new_stream : Ofb64
new_stream = record { iv = replicate 8 0; offset = 0 }

module _ {S : Type 0} (encrypt_block : S → List ℕ → List ℕ) where
  -- The block in force for the next byte.
  unfoldable pub refreshed : S → Ofb64 → List ℕ
  refreshed schedule stream =
      if stream.offset == 0 then encrypt_block schedule stream.iv else stream.iv

  unfoldable pub process_stream : S → Ofb64 → List ℕ → List ℕ × Ofb64
  process_stream schedule stream [] = ([], stream)
  process_stream schedule stream (byte ∷ buffer) =
      let iv = refreshed schedule stream in
      let (bytes, end) =
        process_stream schedule (record { iv = iv; offset = bit_and (stream.offset + 1) 7 })
          buffer in
      (bit_xor byte (get_or iv stream.offset 0) ∷ bytes, end)

-- The schedules are members of the Blowfish object.
pub record TransactionCipher (S : Type 0) : Type 0 where
  pub session_key : List ℕ
  pub encode_key : List ℕ
  pub decode_key : List ℕ
  pub encode_schedule : S
  pub decode_schedule : S
  pub encode_stream : Ofb64
  pub decode_stream : Ofb64

module _ {S : Type 0} (hmac_of : List ℕ → List ℕ → List ℕ) (expand_key : List ℕ → S)
    (encrypt_block : S → List ℕ → List ℕ) where
  unfoldable pub new_cipher : List ℕ → List ℕ → Bool → TransactionCipher S
  new_cipher password session_key is_client =
      let keys = derive_login_keys hmac_of password session_key in
      let encode_key = if is_client then keys.second else keys.first in
      let decode_key = if is_client then keys.first else keys.second in
      record {
        session_key = session_key;
        encode_key = encode_key;
        decode_key = decode_key;
        encode_schedule = expand_key encode_key;
        decode_schedule = expand_key decode_key;
        encode_stream = new_stream;
        decode_stream = new_stream;
      }

  -- A run of the encode stream, and of the decode stream.
  unfoldable pub encode_run : TransactionCipher S → List ℕ → List ℕ × TransactionCipher S
  encode_run c buffer =
      let (bytes, end) = process_stream encrypt_block c.encode_schedule c.encode_stream buffer in
      (bytes, record c { encode_stream = end })

  unfoldable pub decode_run : TransactionCipher S → List ℕ → List ℕ × TransactionCipher S
  decode_run c buffer =
      let (bytes, end) = process_stream encrypt_block c.decode_schedule c.decode_stream buffer in
      (bytes, record c { decode_stream = end })

  unfoldable pub permute_encode_key : TransactionCipher S → ℕ → TransactionCipher S
  permute_encode_key c flag =
      let key = permute_key hmac_of c.encode_key c.session_key flag in
      record c { encode_key = key; encode_schedule = expand_key key }

  unfoldable pub permute_decode_key : TransactionCipher S → ℕ → TransactionCipher S
  permute_decode_key c flag =
      let key = permute_key hmac_of c.decode_key c.session_key flag in
      record c { decode_key = key; decode_schedule = expand_key key }

  -- The data behind the header; `first(prefix)` and `subspan(prefix)` for the shorter of 2 and the
  -- size are `take 2` and `drop 2`.
  unfoldable pub encode_body : TransactionCipher S → List ℕ → ℕ → List ℕ × TransactionCipher S
  encode_body c [] flag = ([], c)
  encode_body c bytes zero = encode_run c bytes
  encode_body c bytes flag =
      let (front, begun) = encode_run c (take 2 bytes) in
      let (rest, end) = encode_run (permute_encode_key begun flag) (drop 2 bytes) in
      (front ++ rest, end)

  unfoldable pub encode :
      TransactionCipher S → List ℕ → List ℕ → ℕ → List ℕ × List ℕ × TransactionCipher S
  encode c header bytes flag =
      let (sealed, begun) = encode_run c header in
      let (body, end) = encode_body begun bytes flag in (sealed, body, end)

  unfoldable pub decode_header : TransactionCipher S → List ℕ → ℕ × List ℕ × TransactionCipher S
  decode_header c header = let (plain, end) = decode_run c header in (get_or plain 0 0, plain, end)

  unfoldable pub decode_data : TransactionCipher S → List ℕ → ℕ → List ℕ × TransactionCipher S
  decode_data c [] flag = ([], c)
  decode_data c bytes zero = decode_run c bytes
  decode_data c bytes flag =
      let (front, begun) = decode_run c (take 2 bytes) in
      let (rest, end) = decode_run (permute_decode_key begun flag) (drop 2 bytes) in
      (front ++ rest, end)

  unfoldable pub decode :
      TransactionCipher S → List ℕ → List ℕ → ℕ × List ℕ × List ℕ × TransactionCipher S
  decode c header bytes =
      let (flag, plain, begun) = decode_header c header in
      let (body, end) = decode_data begun bytes flag in (flag, plain, body, end)

-- A cast to std::uint8_t keeps the low 8 bits.
unfoldable pub legacy_flag_quirk : ℕ → ℕ → ℕ → ℕ
legacy_flag_quirk r0 r1 r2 =
    let first = r0 / 2 ^ 4 % 2 ^ 8 in
    let second = r1 / 2 ^ 2 % 2 ^ 8 in
    if first == 2 || (first == 7 || first == 13)
    then (if second == 0 then (r2 / 2 ^ 3 + 1) % 2 ^ 8 else second)
    else 0
