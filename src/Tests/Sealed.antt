-- ===== src/Tests/Sealed.antt =====
-- Encrypted connections over the small cipher of Ciphers, and a queue that runs dry.
use slopline.Base.{
  ap, sym, ◌∙◌, append-nil, ℕ, ◌++◌, true, false, List, [], ◌∷◌, some, ok, ◌≡◌, refl, arith,
}
use slopline.Protocol.Transaction.{TransactionHeader, IsHeader}
use slopline.Protocol.Cipher.{TransactionCipher, encode, decode_header, decode_data}
use slopline.Protocol.Cipher.Steps.{new_cipher-listener}
use slopline.Net.Connection.{Connection, ConnectionState, PendingSend, on_transaction}
use slopline.Net.Connection.Send.{queue_transaction, flush_sends, is_dead}
use slopline.Net.Connection.Receive.{parse_inbound}
use slopline.Net.Connection.Flush.{queued}
use slopline.Net.Connection.Drain.{flush_sends-drained, settled}
use slopline.Net.Connection.Sealed.{IsSealed, sealed_stream, sender_after}
use slopline.Net.Connection.Sealed.Arrival.{parse_inbound-sealed_stream}
use slopline.Net.Connection.Sealed.Tunnel.{InStep, cipher_tunnel}
use slopline.Net.Connection.Sealed.Sending.{
  queue_transaction-decoded, queue_transaction-sealed, cipher_hooks, flagged_header,
}
use slopline.Roles.Server.{server_handshake, server_handshake-IsHandler}
use slopline.Tests.Inputs.{greeting, test_connection, hello, hello_header, hello_header-IsHeader}
use slopline.Tests.Ciphers.{test_hmac, test_expand, test_encrypt, test_client, test_server}

abbrev Cipher : Type 0
Cipher = TransactionCipher (List ℕ)

-- A connection with the hooks of the cipher; the flag is always 3.
abbrev sealed_connection : Cipher → Connection Cipher
sealed_connection cipher = record {
  max_receive_size = 1000;
  state = ConnectionState.established;
  socket = test_connection.socket;
  crypto = cipher_hooks test_hmac test_expand test_encrypt (λ c. 3);
  cipher = cipher;
  receive_stage = test_connection.receive_stage;
  expected_bytes = 20;
  inbound = [];
  pending_header = test_connection.pending_header;
  pending_flag = 0;
  pending_data = [];
  partial = [];
  send_queue = [];
  events = [];
  remote_sub_protocol = 0;
  remote_version = 0;
}

abbrev test_encode : Cipher → List ℕ → List ℕ → ℕ → List ℕ × List ℕ × Cipher
test_encode = encode test_hmac test_expand test_encrypt

abbrev test_decode_header : Cipher → List ℕ → ℕ × List ℕ × Cipher
test_decode_header = decode_header test_hmac test_expand test_encrypt

abbrev test_decode_data : Cipher → List ℕ → ℕ → List ℕ × Cipher
test_decode_data = decode_data test_hmac test_expand test_encrypt

peer-IsSealed :
    (inbound : List ℕ)
    → IsSealed test_decode_header test_decode_data
        (record (sealed_connection test_server) { inbound = inbound })
unfolding is_dead slopline.Net.Connection.Send.is_closing
peer-IsSealed inbound = record { live = refl; stage = refl; header_hook = refl; data_hook = refl }

test_client-InStep : InStep test_client test_server
test_client-InStep = (new_cipher-listener test_hmac test_expand test_encrypt (9 ∷ []) (8 ∷ [])).0

first-IsHeader : IsHeader (flagged_header 3 105 7 hello false 0)
first-IsHeader = record {
  flag_fits = omega arith;
  is_reply_fits = omega arith;
  type_fits = omega arith;
  id_fits = omega arith;
  error_fits = omega arith;
  total_size_fits = omega arith;
  data_size_fits = omega arith;
}

-- A client that has sent its handshake and still has a sealed transaction in its queue.
abbrev sealed_first : List (TransactionHeader × List ℕ)
sealed_first = (flagged_header 3 105 7 hello false 0, hello) ∷ []

abbrev sealed_sender : Connection Cipher
sealed_sender = record (sealed_connection (sender_after test_encode sealed_first test_client)) {
  socket = record test_connection.socket { sent = greeting };
  send_queue =
      record { bytes = sealed_stream test_encode sealed_first test_client; offset = 0 } ∷ [];
}

sealed_before :
    greeting ++ queued sealed_sender.send_queue
    ≡ greeting ++ sealed_stream test_encode sealed_first test_client
sealed_before = ap (◌++◌ greeting) (append-nil (sealed_stream test_encode sealed_first test_client))

abbrev sealed_last : List ℕ
sealed_last =
    sealed_stream test_encode ((flagged_header 3 105 8 hello false 0, hello) ∷ [])
      sealed_sender.cipher

abbrev sealed_peer : Connection Cipher
sealed_peer = record (sealed_connection test_server) {
  inbound = sealed_stream test_encode sealed_first test_client ++ sealed_last;
}

queue_transaction-decoded_example :
    (t : Connection Cipher) × (parse_inbound server_handshake sealed_peer ≡ some t)
    × IsSealed test_decode_header test_decode_data t
    × InStep (queue_transaction sealed_sender 105 8 hello false 0).cipher t.cipher
    × (t.inbound ≡ [])
    × (t.events
        ≡ on_transaction (flagged_header 3 105 8 hello false 0) hello
          ∷ on_transaction (flagged_header 3 105 7 hello false 0) hello
          ∷ [])
queue_transaction-decoded_example =
    queue_transaction-decoded test_hmac test_expand test_encrypt server_handshake
      server_handshake-IsHandler sealed_sender sealed_peer (λ c. 3) greeting sealed_first
      test_client 105 8 hello false 0 refl sealed_before refl (peer-IsSealed sealed_peer.inbound)
      test_client-InStep ((first-IsHeader, refl, refl, omega arith, omega arith), tt) (omega arith)
      (omega arith) (omega arith) (omega arith) (omega arith) (omega arith) (omega arith)
      (sym (
        (queue_transaction-sealed sealed_sender (λ c. (3, c)) test_encode 105 8 hello false 0 refl
          refl).0
        ∙ ap (λ front. front ++ sealed_last) sealed_before))

abbrev sealed_messages : List (TransactionHeader × List ℕ)
sealed_messages = (hello_header, hello) ∷ (record hello_header { flag = 2 }, hello) ∷ []

flagged-IsHeader : IsHeader (record hello_header { flag = 2 })
flagged-IsHeader = record {
  flag_fits = omega arith;
  is_reply_fits = omega arith;
  type_fits = omega arith;
  id_fits = omega arith;
  error_fits = omega arith;
  total_size_fits = omega arith;
  data_size_fits = omega arith;
}

abbrev sealed_bytes : List ℕ
sealed_bytes = sealed_stream test_encode sealed_messages test_client

parse_inbound-sealed_stream_example :
    (t : Connection Cipher) × (parse_inbound server_handshake
        (record (sealed_connection test_server) { inbound = sealed_bytes })
      ≡ some t)
    × IsSealed test_decode_header test_decode_data t
    × InStep (sender_after test_encode sealed_messages test_client) t.cipher
    × (t.inbound ≡ [])
    × (t.events
        ≡ on_transaction (record hello_header { flag = 2 }) hello
          ∷ on_transaction hello_header hello
          ∷ [])
parse_inbound-sealed_stream_example =
    parse_inbound-sealed_stream InStep test_encode test_decode_header test_decode_data
      (cipher_tunnel test_hmac test_expand test_encrypt) server_handshake server_handshake-IsHandler
      sealed_messages (record (sealed_connection test_server) { inbound = sealed_bytes })
      test_client (peer-IsSealed sealed_bytes) test_client-InStep
      (
        (hello_header-IsHeader, refl, refl, omega arith, omega arith),
        ((flagged-IsHeader, refl, refl, omega arith, omega arith), tt),
      )
      refl

-- Two entries, the first of them begun, and a connection that is closing.
abbrev draining : Connection ℕ
draining = record test_connection {
  state = ConnectionState.closing;
  socket = record { is_open = true; answers = ok 2 ∷ ok 1 ∷ ok 9 ∷ ok 9 ∷ []; sent = 1 ∷ [] };
  send_queue =
      record { bytes = 1 ∷ 2 ∷ 3 ∷ []; offset = 1 }
      ∷ record { bytes = 4 ∷ 5 ∷ []; offset = 0 }
      ∷ [];
}

flush_sends-drained_example :
    ((flush_sends draining).send_queue ≡ [])
    × ((flush_sends draining).socket.sent ≡ 1 ∷ 2 ∷ 3 ∷ 4 ∷ 5 ∷ [])
    × ((flush_sends draining).state ≡ settled ConnectionState.closing)
flush_sends-drained_example =
    flush_sends-drained draining refl (omega arith) (omega arith) (omega arith)
