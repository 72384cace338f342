-- ===== src/Tests/Connections.antt =====
-- Connections on concrete streams.
use slopline.Base.{
  ap, sym, ◌∙◌, append-nil, ℕ, ◌++◌, false, List, [], ◌∷◌, none, some, ok, err, ◌≡◌, refl, arith,
}
use slopline.Protocol.Transaction.{TransactionHeader}
use slopline.Net.Connection.{
  Connection, ConnectionState, ReceiveStage, NetError, Socket, Event, new_connection,
}
use slopline.Net.Connection.Stream.{parse_inbound_total, parse_inbound-feed}
use slopline.Net.Connection.Flush.{flush_sends-fifo}
use slopline.Net.Connection.Delivery.{parse_inbound-stream, stream}
use slopline.Net.Connection.Policy.{parse_inbound-IsBounded}
use slopline.Net.Connection.Reading.{service_readable-collected}
use slopline.Net.Connection.Parts.{take_parts-dispatch}
use slopline.Roles.Client.{client_handshake, client_handshake-IsHandler}
use slopline.Roles.Server.{server_handshake, server_handshake-IsHandler}
use slopline.Roles.Parts.{server_handshake-KeepsParts}
use slopline.Net.Connection.{no_hooks, PartialReceive, on_transaction, on_closed, mark_established}
use slopline.Net.Connection.Send.{queue_transaction, flush_sends, is_dead}
use slopline.Net.Connection.Receive.{parse_inbound, service_readable, find_partial}
use slopline.Net.Connection.Sent.{
  queue_transaction-delivered, queue_transaction-stream, sent_header,
}
use slopline.Net.Connection.Parsing.{feed}
use slopline.Net.Connection.Flush.{queued}
use slopline.Net.Connection.Delivery.{IsPlain}
use slopline.Net.Connection.Policy.{IsBounded}
use slopline.Net.Connection.Parts.{part_header, take_parts}
use slopline.Tests.Inputs.{greeting, test_connection, hello, hello_header, hello_header-IsHeader}

-- A client that has sent its handshake and still has a transaction in its queue.
abbrev hello_first : List (TransactionHeader × List ℕ)
hello_first = (hello_header, hello) ∷ []

abbrev hello_sender : Connection ℕ
hello_sender = record test_connection {
  socket = record test_connection.socket { sent = greeting };
  send_queue = record { bytes = stream hello_first; offset = 0 } ∷ [];
}

hello_before : greeting ++ queued hello_sender.send_queue ≡ greeting ++ stream hello_first
hello_before = ap (◌++◌ greeting) (append-nil (stream hello_first))

abbrev hello_peer : Connection ℕ
hello_peer = record test_connection {
  inbound = stream hello_first ++ stream ((sent_header 105 8 hello false 0, hello) ∷ []);
}

hello_peer-IsPlain : IsPlain hello_peer
unfolding is_dead slopline.Net.Connection.Send.is_closing
hello_peer-IsPlain = record { live = refl; stage = refl; header_plain = refl; data_plain = refl }

queue_transaction-delivered_example :
    (t : Connection ℕ) × (parse_inbound server_handshake hello_peer ≡ some t)
    × IsPlain t
    × (t.inbound ≡ [])
    × (t.events
        ≡ on_transaction (sent_header 105 8 hello false 0) hello
          ∷ on_transaction hello_header hello
          ∷ [])
queue_transaction-delivered_example =
    queue_transaction-delivered server_handshake server_handshake-IsHandler hello_sender hello_peer
      greeting hello_first 105 8 hello false 0 refl hello_before hello_peer-IsPlain
      ((hello_header-IsHeader, refl, refl, omega arith, omega arith), tt) (omega arith)
      (omega arith) (omega arith) (omega arith) (omega arith) (omega arith)
      (sym (
        queue_transaction-stream hello_sender 105 8 hello false 0 refl
        ∙ ap (λ front. front ++ stream ((sent_header 105 8 hello false 0, hello) ∷ []))
            hello_before))

-- The first seven bytes of the message, and the others.
abbrev hello_head : List ℕ
hello_head = 0 ∷ 0 ∷ 0 ∷ 105 ∷ 0 ∷ 0 ∷ 0 ∷ []

abbrev hello_tail : List ℕ
hello_tail = 7 ∷ 0 ∷ 0 ∷ 0 ∷ 0 ∷ 0 ∷ 0 ∷ 0 ∷ 5 ∷ 0 ∷ 0 ∷ 0 ∷ 5 ∷ hello

abbrev hello_begun : Connection ℕ
hello_begun = record test_connection { inbound = hello_head }

-- One message, and the head of the next.
abbrev hello_half : Connection ℕ
hello_half = record test_connection { inbound = (hello_head ++ hello_tail) ++ hello_head }

abbrev hello_parsed : Connection ℕ
hello_parsed = (parse_inbound_total server_handshake server_handshake-IsHandler hello_half).0

parse_inbound-feed_example :
    parse_inbound server_handshake (feed hello_tail hello_half)
    ≡ parse_inbound server_handshake (feed hello_tail hello_parsed)
parse_inbound-feed_example =
    parse_inbound-feed server_handshake server_handshake-IsHandler hello_half hello_parsed
      hello_tail (λ e. absurd (cc e))
      (parse_inbound_total server_handshake server_handshake-IsHandler hello_half).1

parse_inbound_total_example :
    (t : Connection ℕ) × (parse_inbound server_handshake hello_peer ≡ some t)
parse_inbound_total_example =
    parse_inbound_total server_handshake server_handshake-IsHandler hello_peer

abbrev two_messages : List (TransactionHeader × List ℕ)
two_messages = (hello_header, hello) ∷ (hello_header, hello) ∷ []

abbrev two_peer : Connection ℕ
two_peer = record test_connection { inbound = stream two_messages }

two_peer-IsPlain : IsPlain two_peer
unfolding is_dead slopline.Net.Connection.Send.is_closing
two_peer-IsPlain = record { live = refl; stage = refl; header_plain = refl; data_plain = refl }

parse_inbound-stream_example :
    (t : Connection ℕ) × (parse_inbound client_handshake two_peer ≡ some t)
    × IsPlain t
    × (t.inbound ≡ [])
    × (t.events ≡ on_transaction hello_header hello ∷ on_transaction hello_header hello ∷ [])
parse_inbound-stream_example =
    parse_inbound-stream client_handshake client_handshake-IsHandler two_messages two_peer
      two_peer-IsPlain
      (
        (hello_header-IsHeader, refl, refl, omega arith, omega arith),
        ((hello_header-IsHeader, refl, refl, omega arith, omega arith), tt),
      )
      refl

flush_sends-fifo_example :
    (flush_sends hello_sender).socket.sent ++ queued (flush_sends hello_sender).send_queue
    ≡ hello_sender.socket.sent ++ queued hello_sender.send_queue
flush_sends-fifo_example = flush_sends-fifo hello_sender

parse_inbound-IsBounded_example :
    IsBounded (parse_inbound_total server_handshake server_handshake-IsHandler hello_peer).0
parse_inbound-IsBounded_example =
    parse_inbound-IsBounded server_handshake server_handshake-KeepsParts hello_peer
      (parse_inbound_total server_handshake server_handshake-IsHandler hello_peer).0
      (tt, λ e. absurd (cc e))
      (parse_inbound_total server_handshake server_handshake-IsHandler hello_peer).1

abbrev part_of : TransactionHeader
part_of = record {
  flag = 0;
  is_reply = 0;
  type = 105;
  id = 7;
  error = 0;
  total_size = 8;
  data_size = 5;
}

take_parts-dispatch_example :
    let t = take_parts test_connection part_of (hello ∷ (1 ∷ 2 ∷ 3 ∷ []) ∷ []) in
    (t.events
      ≡ on_transaction
          (part_header part_of (1 ∷ 2 ∷ 3 ∷ []))
          (b'h' ∷ b'e' ∷ b'l' ∷ b'l' ∷ b'o' ∷ 1 ∷ 2 ∷ 3 ∷ [])
        ∷ [])
    × (find_partial 0 7 t.partial ≡ none)
unfolding find_partial
take_parts-dispatch_example =
    take_parts-dispatch (hello ∷ []) (1 ∷ 2 ∷ 3 ∷ []) test_connection part_of refl (omega arith, tt)
      (omega arith) (omega arith) (omega arith)

service_readable-collected_example :
    let reads = ok hello_tail ∷ err NetError.interrupted ∷ ok hello_head ∷ [] in
    (service_readable server_handshake reads hello_begun
      ≡ parse_inbound server_handshake (feed (hello_tail ++ hello_head) hello_begun))
    × (service_readable server_handshake (reads ++ (err NetError.would_block ∷ [])) hello_begun
        ≡ parse_inbound server_handshake (feed (hello_tail ++ hello_head) hello_begun))
    × (service_readable server_handshake
          (reads ++ (err NetError.connection_closed ∷ []))
          hello_begun
        ≡ some (record test_connection {
          state = ConnectionState.dead;
          socket = record test_connection.socket { is_open = false };
          inbound = hello_head ++ (hello_tail ++ hello_head);
          events = on_closed ∷ [];
        }))
unfolding is_dead
service_readable-collected_example =
    service_readable-collected server_handshake hello_begun
      (ok hello_tail ∷ err NetError.interrupted ∷ ok hello_head ∷ []) [] NetError.connection_closed
      refl (tt, (tt, (tt, tt))) (λ e. cc e) (λ e. cc e)
