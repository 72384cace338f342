-- ===== src/Net/Connection/Send.antt =====
-- src/hotline/net/src/connection.cpp, the sending half: the queue, and what the socket takes of it.
use slopline.Base.{
  ℕ, ◌+◌, ◌%◌, ◌^◌, Bool, true, false, not, ◌&&◌, List, [], ◌∷◌, ◌++◌, none, some, Expected, ok,
  err, length, take, drop, is_empty, min, leb, if◌then◌else◌,
}
use slopline.Protocol.Transaction.{TransactionHeader, encode_header}
use slopline.Protocol.Constants.TransactionType
use slopline.Protocol.FieldList.{encode_field_list}
use slopline.Net.Connection.{
  Connection, ConnectionState, ConnectionCryptoHooks, Socket, NetError, PendingSend, on_closed,
}

-- `socket_.close()`.
abbrev pub close_socket : Socket → Socket
close_socket socket = record socket { is_open = false }

unfoldable pub is_dead : ConnectionState → Bool
is_dead ConnectionState.dead = true
is_dead _ = false

unfoldable pub is_closing : ConnectionState → Bool
is_closing ConnectionState.closing = true
is_closing _ = false

-- `is_open() && !buffer.empty()`, the test of Socket::send.
unfoldable pub can_send : Socket → List ℕ → Bool
can_send socket buffer = socket.is_open && not (is_empty buffer)

-- `pending.offset += *sent`, and the front is dropped once it is sent whole.
unfoldable pub advance : PendingSend → List PendingSend → ℕ → List PendingSend
advance pending rest n =
    if leb (length pending.bytes) (pending.offset + n)
    then rest
    else record pending { offset = pending.offset + n } ∷ rest

module _ {C : Type 0} where
  unfoldable pub mark_dead : Connection C → Connection C
  unfolding is_dead
  mark_dead c = if is_dead c.state then c else record c {
    state = ConnectionState.dead;
    socket = close_socket c.socket;
    events = on_closed ∷ c.events;
  }

  unfoldable pub queue_bytes : Connection C → List ℕ → Connection C
  queue_bytes c [] = c
  queue_bytes c (b ∷ bytes) = record c {
    send_queue = c.send_queue ++ (record { bytes = b ∷ bytes; offset = 0 } ∷ []);
  }

  -- Behind the loop: a closing connection whose queue is empty is done.
  unfoldable pub flushed : Connection C → Connection C
  flushed c = if is_closing c.state then mark_dead c else c

  -- The socket has given one answer, and has taken `bytes`.
  abbrev pub answered : List (Expected NetError ℕ) → List ℕ → Connection C → Connection C
  answered answers bytes c = record c {
    socket = record {
      is_open = c.socket.is_open;
      answers = answers;
      sent = c.socket.sent ++ bytes;
    };
  }

  -- What the loop does with the answer of `send`, where `next` is its next round: an error other
  -- than these two ends the connection.
  unfoldable pub on_answer :
      Expected NetError ℕ
      → List (Expected NetError ℕ)
      → PendingSend
      → List PendingSend
      → (Connection C → Connection C)
      → Connection C
      → Connection C
  on_answer (err NetError.would_block) answers pending rest next c = answered answers [] c
  on_answer (err NetError.interrupted) answers pending rest next c = next (answered answers [] c)
  on_answer (err _) answers pending rest next c = mark_dead (answered answers [] c)
  on_answer (ok n) answers pending rest next c =
      let left = drop pending.offset pending.bytes in
      let taken = min n (length left) in
      next
        (record (answered answers (take taken left) c) { send_queue = advance pending rest taken })

  -- A round on the queue that is left: `send` fails on a closed socket and on no bytes.
  unfoldable pub on_queue :
      List PendingSend
      → Expected NetError ℕ
      → List (Expected NetError ℕ)
      → (Connection C → Connection C)
      → Connection C
      → Connection C
  on_queue [] answer answers next c = flushed c
  on_queue (pending ∷ rest) answer answers next c =
      if can_send c.socket (drop pending.offset pending.bytes)
      then on_answer answer answers pending rest next c
      else mark_dead c

  -- The round in which the socket would block, having no answer left.
  unfoldable pub on_blocked : List PendingSend → Connection C → Connection C
  on_blocked [] c = flushed c
  on_blocked (pending ∷ rest) c =
      if can_send c.socket (drop pending.offset pending.bytes) then c else mark_dead c

  -- The loop, by the answers that the socket has left.
  unfoldable pub flush_loop : List (Expected NetError ℕ) → Connection C → Connection C
  flush_loop [] c = on_blocked c.send_queue c
  flush_loop (answer ∷ answers) c = on_queue c.send_queue answer answers (flush_loop answers) c

  unfoldable pub flush_sends : Connection C → Connection C
  flush_sends c = flush_loop c.socket.answers c

  unfoldable pub service_writable : Connection C → Connection C
  unfolding is_dead
  service_writable c = if is_dead c.state then c else flush_sends c

  unfoldable pub close : Connection C → Connection C
  close c = record c { socket = close_socket c.socket }

  unfoldable pub set_crypto : Connection C → ConnectionCryptoHooks C → C → Connection C
  set_crypto c hooks cipher = record c { crypto = hooks; cipher = cipher }

  -- The header and data as they go out, under the hooks if both are there, and the cipher after.
  unfoldable pub seal :
      ConnectionCryptoHooks C → C → TransactionHeader → List ℕ → List ℕ × List ℕ × C
  seal hooks cipher header bytes = elim hooks.choose_flag [
    | none ↦ (encode_header header, bytes, cipher)
    | some choose ↦ elim hooks.encode [
      | none ↦ (encode_header header, bytes, cipher)
      | some encode ↦
          let (flag, chosen) = choose cipher in
          encode chosen (encode_header (record header { flag = flag })) bytes flag
    ]
  ]

  unfoldable pub queue_transaction : Connection C → ℕ → ℕ → List ℕ → Bool → ℕ → Connection C
  unfolding seal
  queue_transaction c type id bytes is_reply error =
      let header : TransactionHeader = record {
        flag = 0;
        is_reply = if is_reply then 1 else 0;
        type = type;
        id = id;
        error = error;
        total_size = length bytes % 2 ^ 32;
        data_size = length bytes % 2 ^ 32;
      } in
      let (header_bytes, data_bytes, cipher) = seal c.crypto c.cipher header bytes in
      flush_sends (queue_bytes (record c { cipher = cipher }) (header_bytes ++ data_bytes))

  unfoldable pub queue_keepalive : Connection C → Connection C
  queue_keepalive c = elim (encode_field_list []) [
    | err _ ↦ c
    | ok fields ↦ queue_transaction c TransactionType.keep_connection_alive 0 fields false 0
  ]
