-- ===== src/Net/Connection/Sealed/Tunnel.antt =====
-- The ciphers of src/hotline/protocol/include/hotline/protocol/transaction_cipher.h as the hooks of
-- src/hotline/net/include/hotline/net/connection.h, and the sending side under such hooks.
use slopline.Base.{
  ℕ, zero, suc, ◌+◌, List, [], ◌∷◌, length, get_or, take, drop, length-append, take-append-drop,
  ◌≡◌, refl, sym, ap, ap₂, ◌∙◌,
}
use slopline.Protocol.Cipher.{
  Ofb64, TransactionCipher, process_stream, encode_run, permute_encode_key, encode_body, encode,
  decode_header, decode_data,
}
use slopline.Protocol.Cipher.Steps.{listener, decode_data-encode}
use slopline.Net.Connection.Sealed.{IsTunnel}

module _ {S : Type 0} (encrypt_block : S → List ℕ → List ℕ) where
  length-process_stream :
      (buffer : List ℕ) (schedule : S) (stream : Ofb64)
      → length (process_stream encrypt_block schedule stream buffer).0 ≡ length buffer
  unfolding process_stream
  length-process_stream [] schedule stream = refl
  length-process_stream (byte ∷ buffer) schedule stream =
      ap suc (length-process_stream buffer schedule _)

-- The side `b` decodes what the side `a` encodes.
abbrev pub InStep : {S : Type 0} → TransactionCipher S → TransactionCipher S → Type 0
InStep a b = b ≡ listener a b

module _ {S : Type 0} (hmac_of : List ℕ → List ℕ → List ℕ) (expand_key : List ℕ → S)
    (encrypt_block : S → List ℕ → List ℕ) where
  length-encode_run :
      (a : TransactionCipher S) (buffer : List ℕ)
      → length (encode_run hmac_of expand_key encrypt_block a buffer).0 ≡ length buffer
  unfolding encode_run
  length-encode_run a buffer =
      length-process_stream encrypt_block buffer a.encode_schedule a.encode_stream

  length-encode_body :
      (a : TransactionCipher S) (bytes : List ℕ) (flag : ℕ)
      → length (encode_body hmac_of expand_key encrypt_block a bytes flag).0 ≡ length bytes
  unfolding encode_body
  length-encode_body a [] flag = refl
  length-encode_body a (byte ∷ bytes) zero = length-encode_run a (byte ∷ bytes)
  length-encode_body a (byte ∷ bytes) (suc flag) =
      let begun = encode_run hmac_of expand_key encrypt_block a (take 2 (byte ∷ bytes)) in
      let permuted = permute_encode_key hmac_of expand_key encrypt_block begun.1 (suc flag) in
      let rest = encode_run hmac_of expand_key encrypt_block permuted (drop 2 (byte ∷ bytes)) in
      length-append begun.0 rest.0
      ∙ ap₂ ◌+◌ (length-encode_run a (take 2 (byte ∷ bytes)))
          (length-encode_run permuted (drop 2 (byte ∷ bytes)))
      ∙ sym (length-append (take 2 (byte ∷ bytes)) (drop 2 (byte ∷ bytes)))
      ∙ ap length (take-append-drop 2 (byte ∷ bytes))

  abbrev pub CipherTunnel : Type 0
  CipherTunnel =
      IsTunnel InStep (encode hmac_of expand_key encrypt_block)
        (decode_header hmac_of expand_key encrypt_block)
        (decode_data hmac_of expand_key encrypt_block)

  module _ (a b : TransactionCipher S) (header bytes : List ℕ) (flag : ℕ) (step : InStep a b)
      (first : get_or header 0 0 ≡ flag) where
    abbrev sent : List ℕ × List ℕ × TransactionCipher S
    sent = encode hmac_of expand_key encrypt_block a header bytes flag

    abbrev opened_by : TransactionCipher S → ℕ × List ℕ × TransactionCipher S
    opened_by c = decode_header hmac_of expand_key encrypt_block c sent.0

    flag_opened : (opened_by b).0 ≡ flag
    flag_opened =
        ap (λ c. (opened_by c).0) step
        ∙ (decode_data-encode hmac_of expand_key encrypt_block a b header bytes flag first).0

    data_opened :
        decode_data hmac_of expand_key encrypt_block (opened_by b).2 sent.1 flag
        ≡ (bytes, listener sent.2 b)
    data_opened =
        ap (decode_data hmac_of expand_key encrypt_block (opened_by b).2 sent.1) (sym flag_opened)
        ∙ ap
            (λ c.
              decode_data hmac_of expand_key encrypt_block (opened_by c).2 sent.1 (opened_by c).0)
            step
        ∙ (decode_data-encode hmac_of expand_key encrypt_block a b header bytes flag first).2

  -- The cipher keeps every law that a connection relies on.
  pub cipher_tunnel : CipherTunnel
  unfolding encode
  cipher_tunnel = record {
    header_size = λ a header bytes flag. length-encode_run a header;
    data_size = λ a header bytes flag.
        length-encode_body (encode_run hmac_of expand_key encrypt_block a header).1 bytes flag;
    opens_flag = flag_opened;
    opens_header = λ a b header bytes flag step first.
        ap
          (λ c.
            (decode_header hmac_of expand_key encrypt_block c
              (encode hmac_of expand_key encrypt_block a header bytes flag).0).1)
          step
        ∙ (decode_data-encode hmac_of expand_key encrypt_block a b header bytes flag first).1;
    opens_data = λ a b header bytes flag step first.
        ap (λ p. p.0) (data_opened a b header bytes flag step first);
    keeps_step = λ a b header bytes flag step first.
        let e = ap (λ p. p.1) (data_opened a b header bytes flag step first) in
        e ∙ sym (ap (listener (encode hmac_of expand_key encrypt_block a header bytes flag).2) e);
  }
