-- ===== src/Protocol/Cipher/Steps.antt =====
-- The two sides of an encrypted connection stay in step.
use slopline.Base.{
  ℕ, zero, suc, ◌+◌, ◌≤◌, ◌<◌, arith, true, false, List, [], ◌∷◌, ◌++◌, get_or, bit_and, ◌≡◌, refl,
  ap, ◌∙◌,
}
use slopline.Bits.Xor.{xor_cancel}
use slopline.Protocol.Cipher.{
  Ofb64, TransactionCipher, refreshed, process_stream, new_cipher, encode_run, decode_run,
  permute_encode_key, permute_decode_key, encode_body, encode, decode_header, decode_data, decode,
  legacy_flag_quirk,
}

-- Side `b` as the one that decodes what `a` encodes.
abbrev pub listener : {S : Type 0} → TransactionCipher S → TransactionCipher S → TransactionCipher S
listener a b = record b {
  session_key = a.session_key;
  decode_key = a.encode_key;
  decode_schedule = a.encode_schedule;
  decode_stream = a.encode_stream;
}

module _ {S : Type 0} (encrypt_block : S → List ℕ → List ℕ) where
  -- The stream over its own output gives the input back and ends in the same state.
  process_stream-process_stream :
      (schedule : S) (stream : Ofb64) (buffer : List ℕ)
      → process_stream encrypt_block schedule stream
          (process_stream encrypt_block schedule stream buffer).0
        ≡ (buffer, (process_stream encrypt_block schedule stream buffer).1)
  unfolding process_stream
  process_stream-process_stream schedule stream [] = refl
  process_stream-process_stream schedule stream (byte ∷ buffer) =
      let iv = refreshed encrypt_block schedule stream in
      let next : Ofb64 = record { iv = iv; offset = bit_and (stream.offset + 1) 7 } in
      λ i. (
        xor_cancel byte (get_or iv stream.offset 0) i
            ∷ (process_stream-process_stream schedule next buffer i).0,
        (process_stream-process_stream schedule next buffer i).1,
      )

module _ {S : Type 0} (hmac_of : List ℕ → List ℕ → List ℕ) (expand_key : List ℕ → S)
    (encrypt_block : S → List ℕ → List ℕ) where
  decode-encode_run :
      (a b : TransactionCipher S) (buffer : List ℕ)
      → decode_run hmac_of expand_key encrypt_block
          (listener a b)
          (encode_run hmac_of expand_key encrypt_block a buffer).0
        ≡ (buffer, listener (encode_run hmac_of expand_key encrypt_block a buffer).1 b)
  unfolding decode_run encode_run
  decode-encode_run a b buffer =
      ap (λ p. (p.0, record (listener a b) { decode_stream = p.1 }))
        (process_stream-process_stream encrypt_block a.encode_schedule a.encode_stream buffer)

  -- Two runs with the keys permuted between them.
  decode-encode_two :
      (a b : TransactionCipher S) (front rest : List ℕ) (flag : ℕ)
      → let begun = encode_run hmac_of expand_key encrypt_block a front in
        let end =
          encode_run hmac_of expand_key encrypt_block
            (permute_encode_key hmac_of expand_key encrypt_block begun.1 flag)
            rest in
        let first = decode_run hmac_of expand_key encrypt_block (listener a b) begun.0 in
        let second =
          decode_run hmac_of expand_key encrypt_block
            (permute_decode_key hmac_of expand_key encrypt_block first.1 flag)
            end.0 in
        ◌≡◌ {A = List ℕ × TransactionCipher S}
          (first.0 ++ second.0, second.1)
          (front ++ rest, listener end.1 b)
  unfolding permute_encode_key permute_decode_key
  decode-encode_two a b front rest flag =
      let begun = encode_run hmac_of expand_key encrypt_block a front in
      let permuted = permute_encode_key hmac_of expand_key encrypt_block begun.1 flag in
      let sealed = (encode_run hmac_of expand_key encrypt_block permuted rest).0 in
      ap
        (λ p.
          let second =
            decode_run hmac_of expand_key encrypt_block
              (permute_decode_key hmac_of expand_key encrypt_block p.1 flag) sealed in
          (p.0 ++ second.0, second.1))
        (decode-encode_run a b front)
      ∙ ap (λ p. (front ++ p.0, p.1)) (decode-encode_run permuted b rest)

  decode-encode_body :
      (a b : TransactionCipher S) (bytes : List ℕ) (flag : ℕ)
      → let end = encode_body hmac_of expand_key encrypt_block a bytes flag in
        decode_data hmac_of expand_key encrypt_block (listener a b) end.0 flag
        ≡ (bytes, listener end.1 b)
  unfolding encode_body decode_data encode_run process_stream
  decode-encode_body a b [] flag = refl
  decode-encode_body a b (byte ∷ bytes) zero = decode-encode_run a b (byte ∷ bytes)
  decode-encode_body a b (byte ∷ []) (suc flag) = decode-encode_two a b (byte ∷ []) [] (suc flag)
  decode-encode_body a b (byte ∷ other ∷ bytes) (suc flag) =
      decode-encode_two a b (byte ∷ other ∷ []) bytes (suc flag)

  -- A transaction that one side encodes under a flag, with the flag as the first byte of its header,
  -- comes out as it went in on the side that is in step: the header and its flag first, and then
  -- with this flag the data; and both sides are in step again.
  pub decode_data-encode :
      (a b : TransactionCipher S) (header bytes : List ℕ) (flag : ℕ)
      → get_or header 0 0 ≡ flag
      → let sent = encode hmac_of expand_key encrypt_block a header bytes flag in
        let opened = decode_header hmac_of expand_key encrypt_block (listener a b) sent.0 in
        (opened.0 ≡ flag)
        × (opened.1 ≡ header)
        × (decode_data hmac_of expand_key encrypt_block opened.2 sent.1 opened.0
            ≡ (bytes, listener sent.2 b))
  unfolding encode decode_header
  decode_data-encode a b header bytes flag e =
      let begun = encode_run hmac_of expand_key encrypt_block a header in
      let run = decode-encode_run a b header in
      let read =
        (get_or (decode_run hmac_of expand_key encrypt_block (listener a b) begun.0).0 0 0) in
      let flag_read = ap (λ p. get_or p.0 0 0) run ∙ e in
      (
        flag_read,
        ap (λ p. p.0) run,
        ap
              (λ c.
                decode_data hmac_of expand_key encrypt_block c
                  (encode_body hmac_of expand_key encrypt_block begun.1 bytes flag).0 read)
              (ap (λ p. p.1) run)
            ∙ ap
                (decode_data hmac_of expand_key encrypt_block (listener begun.1 b)
                  (encode_body hmac_of expand_key encrypt_block begun.1 bytes flag).0)
                flag_read
            ∙ decode-encode_body begun.1 b bytes flag,
      )

  -- With the same password and session key, a client and a server begin in step, both ways.
  pub new_cipher-listener :
      (password session_key : List ℕ)
      → let client = new_cipher hmac_of expand_key encrypt_block password session_key true in
        let server = new_cipher hmac_of expand_key encrypt_block password session_key false in
        (server ≡ listener client server) × (client ≡ listener server client)
  unfolding new_cipher
  new_cipher-listener password session_key = (refl, refl)

  -- The same in one call: `decode` undoes `encode`, and both sides are in step again.
  pub decode-encode :
      (a b : TransactionCipher S) (header bytes : List ℕ) (flag : ℕ)
      → get_or header 0 0 ≡ flag
      → let sent = encode hmac_of expand_key encrypt_block a header bytes flag in
        decode hmac_of expand_key encrypt_block (listener a b) sent.0 sent.1
        ≡ (flag, header, bytes, listener sent.2 b)
  unfolding decode
  decode-encode a b header bytes flag e =
      let (flag_read, header_read, opened) = decode_data-encode a b header bytes flag e in
      λ i. (flag_read i, header_read i, (opened i).0, (opened i).1)

-- Over bytes of randomness the flag is at most 63.
pub legacy_flag_quirk-le : (r0 r1 r2 : ℕ) → r1 < 256 → r2 < 256 → legacy_flag_quirk r0 r1 r2 ≤ 63
unfolding legacy_flag_quirk
legacy_flag_quirk-le r0 r1 r2 h k = ground arith
