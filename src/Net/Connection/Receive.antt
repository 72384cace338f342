-- ===== src/Net/Connection/Receive.antt =====
-- src/hotline/net/src/connection.cpp, the receiving half: framing, the receive policy, reassembly.
use slopline.Base.{
  ℕ, ◌+◌, ◌*◌, Bool, true, false, ◌&&◌, ◌||◌, List, [], ◌∷◌, ◌++◌, Option, none, some, Expected, ok,
  err, length, take, drop, ltb, ◌==◌, if◌then◌else◌, Round, again, done, run,
}
use slopline.Protocol.Transaction.{TransactionHeader, decode_header}
use slopline.Protocol.Constants.{transaction_header_size}
use slopline.Net.Connection.{Connection, ReceiveStage, NetError, PartialReceive, on_transaction}
use slopline.Net.Connection.Send.{is_dead, is_closing, mark_dead}

-- The map `partial_`: the entry of a key, without it, and with it anew.
unfoldable pub find_partial : ℕ → ℕ → List PartialReceive → Option PartialReceive
find_partial is_reply id [] = none
find_partial is_reply id (entry ∷ entries) =
    if entry.is_reply == is_reply && entry.id == id
    then some entry
    else find_partial is_reply id entries

unfoldable pub erase_partial : ℕ → ℕ → List PartialReceive → List PartialReceive
erase_partial is_reply id [] = []
erase_partial is_reply id (entry ∷ entries) =
    if entry.is_reply == is_reply && entry.id == id
    then erase_partial is_reply id entries
    else entry ∷ erase_partial is_reply id entries

-- The receive policy on a decoded header.
unfoldable pub rejects : ℕ → TransactionHeader → Bool
rejects max_receive_size header =
    header.total_size == 0
    || (header.data_size == 0
        || (ltb max_receive_size header.total_size || ltb max_receive_size header.data_size))

module _ {C : Type 0} where
  unfoldable pub dispatch : Connection C → TransactionHeader → List ℕ → Connection C
  dispatch c header bytes = record c { events = on_transaction header bytes ∷ c.events }

  -- `partial.data` with the new part behind it.
  unfoldable pub accumulated : Connection C → List ℕ → List ℕ
  accumulated c bytes =
      elim (find_partial c.pending_header.is_reply c.pending_header.id c.partial) [
        | none ↦ bytes
        | some entry ↦ entry.received ++ bytes
      ]

  -- One part of several, under its key.
  unfoldable pub reassemble : Connection C → List ℕ → Connection C
  reassemble c bytes =
      let header = c.pending_header in
      let others = erase_partial header.is_reply header.id c.partial in
      let received = accumulated c bytes in
      if ltb (length received) header.total_size
      then record c {
        partial =
            record {
              is_reply = header.is_reply;
              id = header.id;
              header = header;
              received = received;
            }
            ∷ others;
      }
      else dispatch (record c { partial = others }) header received

  unfoldable pub open_data : Connection C → List ℕ → List ℕ × C
  open_data c bytes = elim c.crypto.decode_data [
    | none ↦ (bytes, c.cipher)
    | some decode ↦ decode c.cipher bytes c.pending_flag
  ]

  unfoldable pub complete_transaction : Connection C → List ℕ → Connection C
  complete_transaction c bytes =
      let (plain, cipher) = open_data c bytes in
      let decoded = record c { cipher = cipher } in
      if c.pending_header.total_size == c.pending_header.data_size
      then dispatch decoded c.pending_header plain
      else reassemble decoded plain

  -- The header's flag, its bytes in the clear, and the cipher after it.
  unfoldable pub open_header : Connection C → List ℕ → ℕ × List ℕ × C
  open_header c bytes = elim c.crypto.decode_header [
    | none ↦ (0, bytes, c.cipher)
    | some decode ↦ decode c.cipher bytes
  ]

  unfoldable pub header_taken : Connection C → ℕ × List ℕ × C → Connection C
  header_taken c (flag, bytes, cipher) = record c {
    inbound = drop transaction_header_size c.inbound;
    cipher = cipher;
    pending_flag = flag;
    pending_header = decode_header bytes;
  }

  unfoldable pub policed : Connection C → Round (Connection C)
  policed c =
      if rejects c.max_receive_size c.pending_header
      then done (mark_dead c)
      else again (record c {
        pending_data = [];
        receive_stage = ReceiveStage.body;
        expected_bytes = c.pending_header.data_size;
      })

  unfoldable pub receive_header : Connection C → Round (Connection C)
  receive_header c =
      if ltb (length c.inbound) transaction_header_size
      then done c
      else policed (header_taken c (open_header c (take transaction_header_size c.inbound)))

  -- Back to the header stage.
  unfoldable pub next_header : Connection C → Connection C
  next_header c = record c {
    receive_stage = ReceiveStage.header;
    expected_bytes = transaction_header_size;
  }

  unfoldable pub receive_data : Connection C → Round (Connection C)
  receive_data c =
      if ltb (length c.inbound) c.expected_bytes
      then done c
      else again (
          next_header (
            complete_transaction
              (record c { inbound = drop c.expected_bytes c.inbound; pending_data = [] })
              (c.pending_data ++ take c.expected_bytes c.inbound)))

-- The virtual `handle_handshake` of the derived class.
module _ {C : Type 0} (handle_handshake : Connection C → Connection C) where
  unfoldable pub receive_handshake : Connection C → Round (Connection C)
  receive_handshake c =
      if ltb (length c.inbound) c.expected_bytes
      then done c
      else again (next_header (handle_handshake c))

  unfoldable pub receive_stage_round : ReceiveStage → Connection C → Round (Connection C)
  receive_stage_round ReceiveStage.handshake c = receive_handshake c
  receive_stage_round ReceiveStage.header c = receive_header c
  receive_stage_round ReceiveStage.body c = receive_data c

  -- One round of the loop of `parse_inbound`.
  unfoldable pub parse_round : Connection C → Round (Connection C)
  parse_round c =
      if is_dead c.state || is_closing c.state
      then done c
      else receive_stage_round c.receive_stage c

  -- A header takes bytes and the stage behind it is left in one round: the fuel is enough.
  unfoldable pub parse_inbound : Connection C → Option (Connection C)
  parse_inbound c = run parse_round (2 * length c.inbound + 2) c

  -- The loop of `service_readable` over what the calls of `receive` return; the socket would block
  -- when nothing is left. `false` tells that an error has ended the connection.
  unfoldable pub receive_all :
      List (Expected NetError (List ℕ)) → Connection C → Connection C × Bool
  receive_all [] c = (c, true)
  receive_all (ok bytes ∷ more) c = receive_all more (record c { inbound = c.inbound ++ bytes })
  receive_all (err NetError.would_block ∷ more) c = (c, true)
  receive_all (err NetError.interrupted ∷ more) c = receive_all more c
  receive_all (err _ ∷ more) c = (mark_dead c, false)

  unfoldable pub service_readable :
      List (Expected NetError (List ℕ)) → Connection C → Option (Connection C)
  service_readable reads c =
      if is_dead c.state
      then some c
      else let (filled, live) = receive_all reads c in
        if live then parse_inbound filled else some filled
