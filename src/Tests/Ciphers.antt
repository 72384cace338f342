-- ===== src/Tests/Ciphers.antt =====
-- Two sides with a small digest and a small block cipher, neither of them secure.
use slopline.Base.{ℕ, true, false, List, [], ◌∷◌, ◌++◌, take, ◌≡◌, refl}
use slopline.Protocol.Cipher.{
  TransactionCipher, new_cipher, encode, decode_header, decode_data, hmac,
}
use slopline.Protocol.Cipher.Steps.{listener, decode_data-encode}
use slopline.Tests.Inputs.{hello}

-- A mark and the first seven bytes.
abbrev test_digest : List ℕ → List ℕ
test_digest bytes = 17 ∷ take 7 bytes

abbrev pub test_hmac : List ℕ → List ℕ → List ℕ
test_hmac = hmac 4 test_digest

abbrev pub test_expand : List ℕ → List ℕ
test_expand key = key

abbrev pub test_encrypt : List ℕ → List ℕ → List ℕ
test_encrypt key block = take 8 (1 ∷ key ++ block)

abbrev pub test_client : TransactionCipher (List ℕ)
test_client = new_cipher test_hmac test_expand test_encrypt (9 ∷ []) (8 ∷ []) true

abbrev pub test_server : TransactionCipher (List ℕ)
test_server = new_cipher test_hmac test_expand test_encrypt (9 ∷ []) (8 ∷ []) false

decode_data-encode_example :
    let sent = encode test_hmac test_expand test_encrypt test_client (3 ∷ 1 ∷ 2 ∷ []) hello 3 in
    let opened =
      decode_header test_hmac test_expand test_encrypt (listener test_client test_server) sent.0 in
    (opened.0 ≡ 3)
    × (opened.1 ≡ 3 ∷ 1 ∷ 2 ∷ [])
    × (decode_data test_hmac test_expand test_encrypt opened.2 sent.1 opened.0
        ≡ (hello, listener sent.2 test_server))
decode_data-encode_example =
    decode_data-encode test_hmac test_expand test_encrypt test_client test_server (3 ∷ 1 ∷ 2 ∷ [])
      hello 3 refl
