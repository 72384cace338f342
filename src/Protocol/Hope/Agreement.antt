-- ===== src/Protocol/Hope/Agreement.antt =====
-- src/hotline/protocol/include/hotline/protocol/hope.h, up to the ciphers of transaction_cipher.h that
-- both sides make of its reply.
use slopline.Base.{ℕ, ◌≤◌, true, false, List, length, ok, ◌≡◌, sym, subst}
use slopline.Protocol.Constants.{max_field_data_size}
use slopline.Protocol.Constants.FieldId
use slopline.Protocol.FieldList.{FieldList, encode_field_list, decode_field_list, field_data}
use slopline.Protocol.Hope.{
  min_session_key_size, MacAlgorithm, CipherAlgorithm, build_server_stage2_reply,
  parse_server_mac_algorithm, parse_server_cipher_algorithm, parse-build_server_stage2_reply,
}
use slopline.Crypto.Blowfish.{Schedule, expand_key, encrypt_block}
use slopline.Protocol.Cipher.{TransactionCipher, new_cipher}
use slopline.Protocol.Cipher.Steps.{listener, new_cipher-listener}
use slopline.Protocol.Cipher.Suites.{Suite, suite_hmac}

-- The digest that an algorithm stands for.
abbrev pub suite_of : MacAlgorithm → Suite
suite_of MacAlgorithm.hmac_sha1 = Suite.sha1
suite_of MacAlgorithm.hmac_md5 = Suite.md5

abbrev pub side_cipher :
    MacAlgorithm → List ℕ → List ℕ → TransactionCipher Schedule × TransactionCipher Schedule
side_cipher algorithm password session_key = (
  new_cipher (suite_hmac (suite_of algorithm)) expand_key encrypt_block password session_key true,
  new_cipher (suite_hmac (suite_of algorithm)) expand_key encrypt_block password session_key false,
)

-- The reply of the server for a session key of 32 to 65535 bytes goes over the wire; the client
-- reads off it the server's choice of algorithms, and the cipher that it makes of the password and of
-- the session key in the reply is in step with the server's, in both directions.
pub hope-agreement :
    (password session_key : List ℕ) (algorithm : MacAlgorithm)
    → min_session_key_size ≤ length session_key
    → length session_key ≤ max_field_data_size
    → (bytes : List ℕ) × (reply : FieldList) × (encode_field_list
          (build_server_stage2_reply session_key algorithm)
        ≡ ok bytes)
      × (decode_field_list bytes ≡ ok reply)
      × (parse_server_mac_algorithm (field_data reply FieldId.mac_alg) ≡ ok algorithm)
      × (parse_server_cipher_algorithm (field_data reply FieldId.server_cipher_alg)
          ≡ ok CipherAlgorithm.blowfish)
      × (let client = (side_cipher algorithm password (field_data reply FieldId.session_key)).0 in
          let server = (side_cipher algorithm password session_key).1 in
          (server ≡ listener client server) × (client ≡ listener server client))
hope-agreement password session_key algorithm long fits =
    let (bytes, written, read, key, mac, cipher) =
      parse-build_server_stage2_reply session_key algorithm fits in
    (
      bytes,
      build_server_stage2_reply session_key algorithm,
      written,
      read,
      mac,
      cipher,
      subst
          (λ k.
            let client = (side_cipher algorithm password k).0 in
            let server = (side_cipher algorithm password session_key).1 in
            (server ≡ listener client server) × (client ≡ listener server client))
          (sym key)
          (new_cipher-listener (suite_hmac (suite_of algorithm)) expand_key encrypt_block password
            session_key),
    )
