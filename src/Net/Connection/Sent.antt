-- ===== src/Net/Connection/Sent.antt =====
-- What a connection sends reaches the other side.
use slopline.Base.{
  All, All-append, append_cancel, ℕ, ◌%◌, ◌^◌, ◌≤◌, ◌<◌, Bool, List, [], ◌∷◌, ◌++◌, none, some,
  length, drop, if◌then◌else◌, ◌≡◌, refl, sym, ap, ◌∙◌, arith, append_assoc, append-nil, ap₂,
}
use slopline.Protocol.Transaction.{TransactionHeader, encode_header}
use slopline.Net.Connection.{Connection, ConnectionCryptoHooks, PendingSend, on_transaction}
use slopline.Net.Connection.Send.{queue_bytes, queue_transaction, seal, flush_sends}
use slopline.Net.Connection.Receive.{parse_inbound}
use slopline.Net.Connection.Parsing.{IsHandler}
use slopline.Net.Connection.Flush.{queued, flush_sends-fifo}
use slopline.Net.Connection.Delivery.{
  IsPlain, Admitted, stream, dispatched, stream-append, dispatched-append, parse_inbound-stream,
}

-- The header under which a sender puts a transaction on the wire.
abbrev pub sent_header : ℕ → ℕ → List ℕ → Bool → ℕ → TransactionHeader
sent_header type id bytes is_reply error = record {
  flag = 0;
  is_reply = if is_reply then 1 else 0;
  type = type;
  id = id;
  error = error;
  total_size = length bytes % 2 ^ 32;
  data_size = length bytes % 2 ^ 32;
}

pub sent_header-Admitted :
    (max_receive_size type id : ℕ) (bytes : List ℕ) (is_reply : Bool) (error : ℕ)
    → type < 2 ^ 16
    → id < 2 ^ 32
    → error < 2 ^ 32
    → 0 < length bytes
    → length bytes ≤ max_receive_size
    → max_receive_size < 2 ^ 32
    → Admitted max_receive_size (sent_header type id bytes is_reply error, bytes)
sent_header-Admitted max_receive_size type id bytes is_reply error type_fits id_fits error_fits
      positive small bound =
    (
      record {
        flag_fits = omega arith;
        is_reply_fits = ground arith;
        type_fits = type_fits;
        id_fits = id_fits;
        error_fits = error_fits;
        total_size_fits = omega arith;
        data_size_fits = omega arith;
      },
      omega arith,
      omega arith,
      positive,
      small,
    )

queued-append :
    (front back : List PendingSend) → queued (front ++ back) ≡ queued front ++ queued back
queued-append [] back = refl
queued-append (pending ∷ front) back =
    ap (◌++◌ (drop pending.offset pending.bytes)) (queued-append front back)
    ∙ sym (append_assoc (drop pending.offset pending.bytes) (queued front) (queued back))

pub queue_bytes-sent :
    {C : Type 0} (c : Connection C) (bytes : List ℕ)
    → (queue_bytes c bytes).socket.sent ≡ c.socket.sent
unfolding queue_bytes
queue_bytes-sent c [] = refl
queue_bytes-sent c (b ∷ bytes) = refl

seal_plain :
    {C : Type 0} (hooks : ConnectionCryptoHooks C) (cipher : C) (header : TransactionHeader)
    (bytes : List ℕ)
    → hooks.choose_flag ≡ none
    → seal hooks cipher header bytes ≡ (encode_header header, bytes, cipher)
unfolding seal
seal_plain hooks cipher header bytes plain = rw plain

module _ {C : Type 0} where
  pub queue_bytes-queued :
      (c : Connection C) (bytes : List ℕ)
      → queued (queue_bytes c bytes).send_queue ≡ queued c.send_queue ++ bytes
  unfolding queue_bytes
  queue_bytes-queued c [] = sym (append-nil _)
  queue_bytes-queued c (b ∷ bytes) =
      queued-append c.send_queue _ ∙ ap (◌++◌ (queued c.send_queue)) (append-nil _)

  -- A connection without hooks puts a transaction behind all that it has sent and queued, as the
  -- header of its size and the bytes.
  pub queue_transaction-stream :
      (c : Connection C) (type id : ℕ) (bytes : List ℕ) (is_reply : Bool) (error : ℕ)
      → c.crypto.choose_flag ≡ none
      → (queue_transaction c type id bytes is_reply error).socket.sent
          ++ queued (queue_transaction c type id bytes is_reply error).send_queue
        ≡ (c.socket.sent ++ queued c.send_queue)
          ++ stream ((sent_header type id bytes is_reply error, bytes) ∷ [])
  unfolding queue_transaction
  queue_transaction-stream c type id bytes is_reply error plain =
      let wire = encode_header (sent_header type id bytes is_reply error) ++ bytes in
      ap
        (λ p.
          let sender = flush_sends (queue_bytes (record c { cipher = p.2 }) (p.0 ++ p.1)) in
          sender.socket.sent ++ queued sender.send_queue)
        (seal_plain c.crypto c.cipher (sent_header type id bytes is_reply error) bytes plain)
      ∙ flush_sends-fifo (queue_bytes c wire)
      ∙ ap₂ ◌++◌ (queue_bytes-sent c wire) (queue_bytes-queued c wire)
      ∙ sym (append_assoc c.socket.sent (queued c.send_queue) wire)
      ∙ ap
          (λ tail.
            (c.socket.sent ++ queued c.send_queue)
            ++ (encode_header (sent_header type id bytes is_reply error) ++ tail))
          (sym (append-nil bytes))

  -- Over a pair without hooks: the peer has taken some of what the sender had sent and queued before,
  -- such as its handshake, and the rest of that are transactions that the peer's policy admits. Then
  -- a transaction of 1 to max_receive_size bytes arrives: the peer that has got all that the sender
  -- puts out dispatches the earlier transactions and then this one, once and with the sender's header
  -- and bytes, and is ready for the next.
  pub queue_transaction-delivered :
      (handle : Connection C → Connection C) {size : ℕ} (laws : IsHandler size handle)
      (c peer : Connection C) (taken : List ℕ) (earlier : List (TransactionHeader × List ℕ))
      (type id : ℕ) (bytes : List ℕ) (is_reply : Bool) (error : ℕ)
      → c.crypto.choose_flag ≡ none
      → c.socket.sent ++ queued c.send_queue ≡ taken ++ stream earlier
      → IsPlain peer
      → All (Admitted peer.max_receive_size) earlier
      → type < 2 ^ 16
      → id < 2 ^ 32
      → error < 2 ^ 32
      → 0 < length bytes
      → length bytes ≤ peer.max_receive_size
      → peer.max_receive_size < 2 ^ 32
      → let sender = queue_transaction c type id bytes is_reply error in
        taken ++ peer.inbound ≡ sender.socket.sent ++ queued sender.send_queue
        → (t : Connection C) × (parse_inbound handle peer ≡ some t)
          × IsPlain t
          × (t.inbound ≡ [])
          × (t.events
              ≡ on_transaction (sent_header type id bytes is_reply error) bytes
                ∷ dispatched earlier peer.events)
  queue_transaction-delivered handle laws c peer taken earlier type id bytes is_reply error no_hooks
        before plain admitted type_fits id_fits error_fits positive small bound arrived =
      let last = (sent_header type id bytes is_reply error, bytes) ∷ [] in
      let (t, ends, is_plain, empty, events) =
        parse_inbound-stream handle laws (earlier ++ last) peer plain
          (All-append (Admitted peer.max_receive_size) earlier last admitted (
            sent_header-Admitted peer.max_receive_size type id bytes is_reply error type_fits
                id_fits error_fits positive small bound,
            tt,
          ))
          (append_cancel taken peer.inbound (stream (earlier ++ last)) (
            arrived
            ∙ queue_transaction-stream c type id bytes is_reply error no_hooks
            ∙ ap (λ front. front ++ stream last) before
            ∙ append_assoc taken (stream earlier) (stream last)
            ∙ ap (◌++◌ taken) (sym (stream-append earlier last)))) in
      (t, ends, is_plain, empty, events ∙ dispatched-append earlier last peer.events)
