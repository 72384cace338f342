-- ===== src/Protocol/Hope.antt =====
-- src/hotline/protocol/include/hotline/protocol/hope.h and src/hope.cpp: the fields of an encrypted
-- login, over `hmac<H>`.
pub mod Agreement
use slopline.Base.{
  ℕ, ◌≤◌, List, [], ◌∷◌, ◌++◌, some, none, ltb, if◌then◌else◌, length, drop, equal, All, pos,
  Expected, ok, err, ◌≡◌, refl, sym, arith,
}
use slopline.Protocol.Constants.{max_field_data_size, max_field_count}
use slopline.Protocol.Constants.FieldId
use slopline.Protocol.FieldList.{
  Field, FieldList, IsField, make_integer_field, encode_field_list, decode_field_list, field_data,
  find_field,
}
use slopline.Protocol.FieldList.RoundTrip.{decode-encode_field_list}

-- A length byte and the name.
abbrev pub hmac_sha1_name : List ℕ
hmac_sha1_name = 9 ∷ b'H' ∷ b'M' ∷ b'A' ∷ b'C' ∷ b'-' ∷ b'S' ∷ b'H' ∷ b'A' ∷ b'1' ∷ []

abbrev pub hmac_md5_name : List ℕ
hmac_md5_name = 8 ∷ b'H' ∷ b'M' ∷ b'A' ∷ b'C' ∷ b'-' ∷ b'M' ∷ b'D' ∷ b'5' ∷ []

abbrev pub blowfish_name : List ℕ
blowfish_name = 8 ∷ b'B' ∷ b'L' ∷ b'O' ∷ b'W' ∷ b'F' ∷ b'I' ∷ b'S' ∷ b'H' ∷ []

abbrev pub mac_alg_list : List ℕ
mac_alg_list = 0 ∷ 2 ∷ 9 ∷ b'H' ∷ b'M' ∷ b'A' ∷ b'C' ∷ b'-' ∷ b'S' ∷ b'H' ∷ b'A' ∷ b'1' ∷ []

abbrev pub client_cipher_alg_list : List ℕ
client_cipher_alg_list = 0 ∷ 1 ∷ 8 ∷ b'B' ∷ b'L' ∷ b'O' ∷ b'W' ∷ b'F' ∷ b'I' ∷ b'S' ∷ b'H' ∷ []

-- No code of the repository reads this constant.
abbrev pub min_session_key_size : ℕ
min_session_key_size = 32

pub data MacAlgorithm : Type 0 where
  hmac_sha1 hmac_md5 : MacAlgorithm

pub data CipherAlgorithm : Type 0 where
  blowfish : CipherAlgorithm

pub data HopeError : Type 0 where
  malformed unsupported_mac_algorithm unsupported_cipher_algorithm : HopeError

unfoldable pub build_stage1_login : FieldList
build_stage1_login =
    record { id = FieldId.user_login; content = 0 ∷ [] }
    ∷ record { id = FieldId.user_password; content = 0 ∷ [] }
    ∷ record { id = FieldId.mac_alg; content = mac_alg_list }
    ∷ record { id = FieldId.client_cipher_alg; content = client_cipher_alg_list }
    ∷ []

-- The field's bytes behind a prefix of two.
unfoldable pub parse_server_mac_algorithm : List ℕ → Expected HopeError MacAlgorithm
parse_server_mac_algorithm field =
    if ltb (length field) 3
    then err HopeError.malformed
    else if equal (drop 2 field) hmac_sha1_name
    then ok MacAlgorithm.hmac_sha1
    else if equal (drop 2 field) hmac_md5_name
    then ok MacAlgorithm.hmac_md5
    else err HopeError.unsupported_mac_algorithm

unfoldable pub parse_server_cipher_algorithm : List ℕ → Expected HopeError CipherAlgorithm
parse_server_cipher_algorithm field =
    if ltb (length field) 3
    then err HopeError.malformed
    else if equal (drop 2 field) blowfish_name
    then ok CipherAlgorithm.blowfish
    else err HopeError.unsupported_cipher_algorithm

module _ (hmac_of : List ℕ → List ℕ → List ℕ) where
  -- The digests of the login and of the password.
  unfoldable pub login_digests : List ℕ → List ℕ → List ℕ → List ℕ × List ℕ
  login_digests login password session_key =
      (hmac_of login session_key, hmac_of password session_key)

  unfoldable pub build_stage2_login : List ℕ → List ℕ → List ℕ → List ℕ → FieldList
  build_stage2_login login password session_key server_cipher_field =
      let (mac_login, mac_password) = login_digests login password session_key in
      record { id = FieldId.user_login; content = mac_login }
      ∷ record { id = FieldId.user_password; content = mac_password }
      ∷ record { id = FieldId.client_cipher_alg; content = server_cipher_field }
      ∷ make_integer_field FieldId.vers (pos 197)
      ∷ []

abbrev pub algorithm_name : MacAlgorithm → List ℕ
algorithm_name MacAlgorithm.hmac_sha1 = hmac_sha1_name
algorithm_name MacAlgorithm.hmac_md5 = hmac_md5_name

unfoldable pub build_server_stage2_reply : List ℕ → MacAlgorithm → FieldList
build_server_stage2_reply session_key algorithm =
    record { id = FieldId.session_key; content = session_key }
    ∷ record { id = FieldId.mac_alg; content = 0 ∷ 1 ∷ algorithm_name algorithm }
    ∷ record { id = FieldId.server_cipher_alg; content = 0 ∷ 1 ∷ blowfish_name }
    ∷ []

-- What the client parses is what the server has chosen.
pub parse-build_server_stage2_reply :
    (session_key : List ℕ) (algorithm : MacAlgorithm)
    → length session_key ≤ max_field_data_size
    → let reply = build_server_stage2_reply session_key algorithm in
      (bytes : List ℕ) × (encode_field_list reply ≡ ok bytes)
      × (decode_field_list bytes ≡ ok reply)
      × (field_data reply FieldId.session_key ≡ session_key)
      × (parse_server_mac_algorithm (field_data reply FieldId.mac_alg) ≡ ok algorithm)
      × (parse_server_cipher_algorithm (field_data reply FieldId.server_cipher_alg)
          ≡ ok CipherAlgorithm.blowfish)
unfolding build_server_stage2_reply parse_server_mac_algorithm parse_server_cipher_algorithm
    field_data find_field
parse-build_server_stage2_reply session_key MacAlgorithm.hmac_sha1 fits =
    let reply = build_server_stage2_reply session_key MacAlgorithm.hmac_sha1 in
    let (bytes, written, read) = decode-encode_field_list reply (omega arith) (omega arith) in
    (bytes, written, read, refl, refl, refl)
parse-build_server_stage2_reply session_key MacAlgorithm.hmac_md5 fits =
    let reply = build_server_stage2_reply session_key MacAlgorithm.hmac_md5 in
    let (bytes, written, read) = decode-encode_field_list reply (omega arith) (omega arith) in
    (bytes, written, read, refl, refl, refl)
