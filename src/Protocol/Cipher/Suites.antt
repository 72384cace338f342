-- ===== src/Protocol/Cipher/Suites.antt =====
-- src/hotline/protocol/include/hotline/protocol/transaction_cipher.h with the digests and the block
-- cipher of src/appwarrior/crypto in the place of its parameters.
use slopline.Base.{ℕ, Bool, List, subst, sym}
use slopline.Crypto.Blowfish.{Schedule, expand_key, encrypt_block}
use slopline.Crypto.Blowfish.Shapes.{IsSchedule, expand_key-IsSchedule}
use slopline.Crypto.Sha1
use slopline.Crypto.Md5
use slopline.Crypto.Hashes.{length-sha1, length-md5, sha1-IsByte, md5-IsByte}
use slopline.Protocol.Cipher.{
  TransactionCipher, hmac, new_cipher, encode, decode_header, decode_data, encode_run,
}
use slopline.Protocol.Cipher.Keys.{
  IsKey, IsKeyed, new_cipher-IsKeyed, encode_body-IsKeyed, encode_run-IsKeyed, decode_run-IsKeyed,
  decode_data-IsKeyed,
}

-- The digests that the class is used with.
pub data Suite : Type 0 where
  md5 : Suite
  sha1 : Suite

abbrev pub digest_size : Suite → ℕ
digest_size md5 = 16
digest_size sha1 = 20

abbrev pub suite_hmac : Suite → List ℕ → List ℕ → List ℕ
suite_hmac md5 = hmac 64 Md5.digest
suite_hmac sha1 = hmac 64 Sha1.digest

pub suite_hmac-IsKey :
    (suite : Suite) (key message : List ℕ)
    → IsKey (digest_size suite) (suite_hmac suite key message)
unfolding hmac
suite_hmac-IsKey md5 key message = record { sized = length-md5 _; bytes = md5-IsByte _ }
suite_hmac-IsKey sha1 key message = record { sized = length-sha1 _; bytes = sha1-IsByte _ }

module _ (suite : Suite) where
  -- A cipher after any sequence of calls.
  pub data Used : TransactionCipher Schedule → Type 0 where
    begun :
        (password session_key : List ℕ) (is_client : Bool)
        → Used
            (new_cipher (suite_hmac suite) expand_key encrypt_block password session_key is_client)
    encoded :
        (c : TransactionCipher Schedule) (header bytes : List ℕ) (flag : ℕ)
        → Used c
        → Used (encode (suite_hmac suite) expand_key encrypt_block c header bytes flag).2
    header_decoded :
        (c : TransactionCipher Schedule) (header : List ℕ)
        → Used c
        → Used (decode_header (suite_hmac suite) expand_key encrypt_block c header).2
    data_decoded :
        (c : TransactionCipher Schedule) (bytes : List ℕ) (flag : ℕ)
        → Used c
        → Used (decode_data (suite_hmac suite) expand_key encrypt_block c bytes flag).1

  abbrev IsSuiteKeyed : TransactionCipher Schedule → Type 0
  IsSuiteKeyed = IsKeyed (digest_size suite) (suite_hmac suite) (suite_hmac-IsKey suite) expand_key

  Used-IsKeyed : (c : TransactionCipher Schedule) → Used c → IsSuiteKeyed c
  unfolding encode decode_header
  Used-IsKeyed _ (begun password session_key is_client) =
      new_cipher-IsKeyed (digest_size suite) (suite_hmac suite) (suite_hmac-IsKey suite) expand_key
        encrypt_block password session_key is_client
  Used-IsKeyed _ (encoded c header bytes flag u) =
      let begun = encode_run (suite_hmac suite) expand_key encrypt_block c header in
      encode_body-IsKeyed (digest_size suite) (suite_hmac suite) (suite_hmac-IsKey suite) expand_key
        encrypt_block begun.1 bytes flag
        (encode_run-IsKeyed (digest_size suite) (suite_hmac suite) (suite_hmac-IsKey suite)
          expand_key encrypt_block c header (Used-IsKeyed c u))
  Used-IsKeyed _ (header_decoded c header u) =
      decode_run-IsKeyed (digest_size suite) (suite_hmac suite) (suite_hmac-IsKey suite) expand_key
        encrypt_block c header (Used-IsKeyed c u)
  Used-IsKeyed _ (data_decoded c bytes flag u) =
      decode_data-IsKeyed (digest_size suite) (suite_hmac suite) (suite_hmac-IsKey suite) expand_key
        encrypt_block c bytes flag (Used-IsKeyed c u)

  -- Whatever the calls, both keys have the size of the digest, so that the schedule's walk over a key
  -- never divides by a size of 0; each schedule is that of its key, with 18 subkeys and four boxes of
  -- 256 words of 32 bits.
  pub Used-IsSchedule :
      (c : TransactionCipher Schedule)
      → Used c
      → IsSuiteKeyed c × (IsSchedule c.encode_schedule × IsSchedule c.decode_schedule)
  Used-IsSchedule c u =
      let k = Used-IsKeyed c u in
      (
        k,
        (
          subst IsSchedule (sym k.encode_scheduled)
              (expand_key-IsSchedule c.encode_key k.encode_keyed.bytes),
          subst IsSchedule (sym k.decode_scheduled)
              (expand_key-IsSchedule c.decode_key k.decode_keyed.bytes),
        ),
      )
