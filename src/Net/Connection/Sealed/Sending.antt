-- ===== src/Net/Connection/Sealed/Sending.antt =====
-- src/hotline/net/src/connection.cpp: a transaction that `queue_transaction` seals, up to its arrival.
use slopline.Base.{
  All, All-append, append_cancel, Bool-cases, inl, inr, ℕ, ◌^◌, ◌≤◌, ◌<◌, Bool, List, [], ◌∷◌, ◌++◌,
  some, length, ◌≡◌, refl, sym, ap, ap₂, subst, ◌∙◌, append_assoc, append-nil,
}
use slopline.Protocol.Transaction.{TransactionHeader, encode_header}
use slopline.Protocol.Cipher.{TransactionCipher, encode, decode_header, decode_data}
use slopline.Net.Connection.{Connection, ConnectionCryptoHooks, on_transaction}
use slopline.Net.Connection.Send.{
  queue_bytes, queue_transaction, seal, flush_sends, mark_dead, is_dead,
}
use slopline.Net.Connection.Receive.{parse_inbound}
use slopline.Net.Connection.Parsing.{IsHandler}
use slopline.Net.Connection.Flush.{queued, flush_sends-fifo, flush_sends_inv}
use slopline.Net.Connection.Sent.{
  sent_header, sent_header-Admitted, queue_bytes-sent, queue_bytes-queued,
}
use slopline.Net.Connection.Delivery.{Admitted, dispatched, dispatched-append}
use slopline.Net.Connection.Sealed.{
  sealed_stream, sender_after, sealed_stream-append, sender_after-append, IsSealed,
}
use slopline.Net.Connection.Sealed.Arrival.{parse_inbound-sealed_stream}
use slopline.Net.Connection.Sealed.Tunnel.{InStep, cipher_tunnel}

-- The header as it is sealed, under the flag that the hook has chosen.
abbrev pub flagged_header : ℕ → ℕ → ℕ → List ℕ → Bool → ℕ → TransactionHeader
flagged_header flag type id bytes is_reply error =
    record (sent_header type id bytes is_reply error) { flag = flag }

flagged_header-Admitted :
    (max_receive_size flag type id : ℕ) (bytes : List ℕ) (is_reply : Bool) (error : ℕ)
    → flag < 2 ^ 8
    → Admitted max_receive_size (sent_header type id bytes is_reply error, bytes)
    → Admitted max_receive_size (flagged_header flag type id bytes is_reply error, bytes)
flagged_header-Admitted max_receive_size flag type id bytes is_reply error flag_fits
      (fits, total, size, positive, small) =
    (
      record {
        flag_fits = flag_fits;
        is_reply_fits = fits.is_reply_fits;
        type_fits = fits.type_fits;
        id_fits = fits.id_fits;
        error_fits = fits.error_fits;
        total_size_fits = fits.total_size_fits;
        data_size_fits = fits.data_size_fits;
      },
      total,
      size,
      positive,
      small,
    )

module _ {C : Type 0} where
  mark_dead-cipher : (c : Connection C) → (mark_dead c).cipher ≡ c.cipher
  unfolding mark_dead is_dead
  mark_dead-cipher c = elim (Bool-cases (is_dead c.state)) [
    | inl already ↦ rw already refl
    | inr now ↦ rw now refl
  ]

  flush_sends-cipher : (c : Connection C) → (flush_sends c).cipher ≡ c.cipher
  flush_sends-cipher c =
      flush_sends_inv (λ d. d.cipher ≡ c.cipher) (λ d p. mark_dead-cipher d ∙ p) (λ answers d p. p)
        (λ answers d pending rest taken e p. p) c refl

  queue_bytes-cipher : (c : Connection C) (bytes : List ℕ) → (queue_bytes c bytes).cipher ≡ c.cipher
  unfolding queue_bytes
  queue_bytes-cipher c [] = refl
  queue_bytes-cipher c (b ∷ bytes) = refl

  seal_flagged :
      (hooks : ConnectionCryptoHooks C) (choose : C → ℕ × C)
      (encode : C → List ℕ → List ℕ → ℕ → List ℕ × List ℕ × C) (cipher : C)
      (header : TransactionHeader) (bytes : List ℕ)
      → hooks.choose_flag ≡ some choose
      → hooks.encode ≡ some encode
      → seal hooks cipher header bytes
        ≡ encode
            (choose cipher).1
            (encode_header (record header { flag = (choose cipher).0 }))
            bytes
            (choose cipher).0
  unfolding seal
  seal_flagged hooks choose encode cipher header bytes chooses encodes = rw (chooses, encodes) refl

  -- Under hooks a transaction goes behind all that is sent and queued, sealed under the flag that is
  -- chosen, and the cipher moves on.
  pub queue_transaction-sealed :
      (c : Connection C) (choose : C → ℕ × C)
      (encode : C → List ℕ → List ℕ → ℕ → List ℕ × List ℕ × C) (type id : ℕ) (bytes : List ℕ)
      (is_reply : Bool) (error : ℕ)
      → c.crypto.choose_flag ≡ some choose
      → c.crypto.encode ≡ some encode
      → let header = flagged_header (choose c.cipher).0 type id bytes is_reply error in
        let sender = queue_transaction c type id bytes is_reply error in
        (sender.socket.sent ++ queued sender.send_queue
          ≡ (c.socket.sent ++ queued c.send_queue)
            ++ sealed_stream encode ((header, bytes) ∷ []) (choose c.cipher).1)
        × (sender.cipher ≡ sender_after encode ((header, bytes) ∷ []) (choose c.cipher).1)
  unfolding queue_transaction sealed_stream sender_after
  queue_transaction-sealed c choose encode type id bytes is_reply error chooses encodes =
      let (flag, chosen) = choose c.cipher in
      let header = flagged_header flag type id bytes is_reply error in
      let sealed = encode chosen (encode_header header) bytes flag in
      let wire = sealed.0 ++ sealed.1 in
      let after : Connection C = record c { cipher = sealed.2 } in
      let chain =
        seal_flagged c.crypto choose encode c.cipher (sent_header type id bytes is_reply error)
          bytes chooses encodes in
      let sending : List ℕ × List ℕ × C → Connection C =
        λ p. flush_sends (queue_bytes (record c { cipher = p.2 }) (p.0 ++ p.1)) in
      (
        ap (λ p. (sending p).socket.sent ++ queued (sending p).send_queue) chain
            ∙ flush_sends-fifo (queue_bytes after wire)
            ∙ ap₂ ◌++◌ (queue_bytes-sent after wire) (queue_bytes-queued after wire)
            ∙ sym (append_assoc c.socket.sent (queued c.send_queue) wire)
            ∙ ap (λ tail. (c.socket.sent ++ queued c.send_queue) ++ (sealed.0 ++ tail))
                (sym (append-nil sealed.1)),
        ap (λ p. (sending p).cipher) chain
            ∙ flush_sends-cipher (queue_bytes after wire)
            ∙ queue_bytes-cipher after wire,
      )

module _ {S : Type 0} (hmac_of : List ℕ → List ℕ → List ℕ) (expand_key : List ℕ → S)
    (encrypt_block : S → List ℕ → List ℕ) where
  -- The hooks over a cipher, where the choice of a flag leaves the cipher alone.
  abbrev pub cipher_hooks : (TransactionCipher S → ℕ) → ConnectionCryptoHooks (TransactionCipher S)
  cipher_hooks choose = record {
    choose_flag = some (λ c. (choose c, c));
    encode = some (encode hmac_of expand_key encrypt_block);
    decode_header = some (decode_header hmac_of expand_key encrypt_block);
    decode_data = some (decode_data hmac_of expand_key encrypt_block);
  }

  -- A sender with the hooks of the cipher, and a live peer with its decoding hooks. The peer has taken
  -- some of what the sender had sent and queued before, such as its handshake and transactions; the
  -- rest of that are transactions that the peer's policy admits, sealed from a state on that is in
  -- step with the peer's. Then a transaction of 1 to max_receive_size bytes, queued under any flag
  -- below 256, arrives: the peer that has got all that the sender puts out dispatches the earlier
  -- transactions and then this one, with the flag, the sender's header and the plain bytes, has
  -- taken all its input, and both sides are in step again.
  pub queue_transaction-decoded :
      (handle : Connection (TransactionCipher S) → Connection (TransactionCipher S)) {size : ℕ}
      (laws : IsHandler size handle) (c peer : Connection (TransactionCipher S))
      (choose : TransactionCipher S → ℕ) (taken : List ℕ)
      (earlier : List (TransactionHeader × List ℕ)) (a : TransactionCipher S) (type id : ℕ)
      (bytes : List ℕ) (is_reply : Bool) (error : ℕ)
      → c.crypto ≡ cipher_hooks choose
      → c.socket.sent ++ queued c.send_queue
        ≡ taken ++ sealed_stream (encode hmac_of expand_key encrypt_block) earlier a
      → c.cipher ≡ sender_after (encode hmac_of expand_key encrypt_block) earlier a
      → IsSealed
          (decode_header hmac_of expand_key encrypt_block)
          (decode_data hmac_of expand_key encrypt_block)
          peer
      → InStep a peer.cipher
      → All (Admitted peer.max_receive_size) earlier
      → choose c.cipher < 2 ^ 8
      → type < 2 ^ 16
      → id < 2 ^ 32
      → error < 2 ^ 32
      → 0 < length bytes
      → length bytes ≤ peer.max_receive_size
      → peer.max_receive_size < 2 ^ 32
      → let sender = queue_transaction c type id bytes is_reply error in
        taken ++ peer.inbound ≡ sender.socket.sent ++ queued sender.send_queue
        → (t : Connection (TransactionCipher S)) × (parse_inbound handle peer ≡ some t)
          × IsSealed
              (decode_header hmac_of expand_key encrypt_block)
              (decode_data hmac_of expand_key encrypt_block)
              t
          × InStep sender.cipher t.cipher
          × (t.inbound ≡ [])
          × (t.events
              ≡ on_transaction (flagged_header (choose c.cipher) type id bytes is_reply error) bytes
                ∷ dispatched earlier peer.events)
  queue_transaction-decoded handle laws c peer choose taken earlier a type id bytes is_reply error
        hooked before now sealed step admitted flag_fits type_fits id_fits error_fits positive small
        bound arrived =
      let encoder = encode hmac_of expand_key encrypt_block in
      let last = (flagged_header (choose c.cipher) type id bytes is_reply error, bytes) ∷ [] in
      let (wire, moved) =
        queue_transaction-sealed c (λ s. (choose s, s)) encoder type id bytes is_reply error
          (ap (λ h. h.choose_flag) hooked) (ap (λ h. h.encode) hooked) in
      let (t, ends, is_sealed, in_step, empty, events) =
        parse_inbound-sealed_stream InStep encoder (decode_header hmac_of expand_key encrypt_block)
          (decode_data hmac_of expand_key encrypt_block)
          (cipher_tunnel hmac_of expand_key encrypt_block) handle laws (earlier ++ last) peer a
          sealed step
          (All-append (Admitted peer.max_receive_size) earlier last admitted (
            flagged_header-Admitted peer.max_receive_size (choose c.cipher) type id bytes is_reply
                error flag_fits
                (sent_header-Admitted peer.max_receive_size type id bytes is_reply error type_fits
                  id_fits error_fits positive small bound),
            tt,
          ))
          (append_cancel taken peer.inbound (sealed_stream encoder (earlier ++ last) a) (
            arrived
            ∙ wire
            ∙ ap (λ front. front ++ sealed_stream encoder last c.cipher) before
            ∙ append_assoc taken (sealed_stream encoder earlier a)
                (sealed_stream encoder last c.cipher)
            ∙ ap (λ s. taken ++ (sealed_stream encoder earlier a ++ sealed_stream encoder last s))
                now
            ∙ ap (◌++◌ taken) (sym (sealed_stream-append encoder earlier last a)))) in
      let same : sender_after encoder (earlier ++ last) a
          ≡ (queue_transaction c type id bytes is_reply error).cipher =
        sender_after-append encoder earlier last a
        ∙ ap (sender_after encoder last) (sym now)
        ∙ sym moved in
      (
        t,
        ends,
        is_sealed,
        subst (λ s. InStep s t.cipher) same in_step,
        empty,
        events ∙ dispatched-append earlier last peer.events,
      )
