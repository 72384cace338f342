-- ===== src/Tests/Inputs.antt =====
-- The inputs that the tests share.
use slopline.Base.{ℕ, true, List, [], ◌∷◌, ok, err, arith}
use slopline.Protocol.Transaction.{TransactionHeader, IsHeader}
use slopline.Protocol.AccessMask.{AccessMask}
use slopline.Net.Connection.{Connection, ConnectionState, ReceiveStage, NetError}
use slopline.Net.Connection.{no_hooks}

-- A connection past its handshake whose socket has taken nothing; the cipher is not used.
abbrev pub test_connection : Connection ℕ
test_connection = record {
  max_receive_size = 1000;
  state = ConnectionState.established;
  socket = record { is_open = true; answers = ok 30 ∷ err NetError.would_block ∷ []; sent = [] };
  crypto = no_hooks;
  cipher = 0;
  receive_stage = ReceiveStage.header;
  expected_bytes = 20;
  inbound = [];
  pending_header = record {
    flag = 0;
    is_reply = 0;
    type = 100;
    id = 0;
    error = 0;
    total_size = 0;
    data_size = 0;
  };
  pending_flag = 0;
  pending_data = [];
  partial = [];
  send_queue = [];
  events = [];
  remote_sub_protocol = 0;
  remote_version = 0;
}

abbrev pub hello : List ℕ
hello = b'h' ∷ b'e' ∷ b'l' ∷ b'l' ∷ b'o' ∷ []

-- The handshake of a client.
abbrev pub greeting : List ℕ
greeting = b'T' ∷ b'R' ∷ b'T' ∷ b'P' ∷ b'H' ∷ b'O' ∷ b'T' ∷ b'L' ∷ 0 ∷ 1 ∷ 0 ∷ 2 ∷ []

abbrev pub hello_header : TransactionHeader
hello_header = record {
  flag = 0;
  is_reply = 0;
  type = 105;
  id = 7;
  error = 0;
  total_size = 5;
  data_size = 5;
}

pub hello_header-IsHeader : IsHeader hello_header
hello_header-IsHeader = record {
  flag_fits = omega arith;
  is_reply_fits = omega arith;
  type_fits = omega arith;
  id_fits = omega arith;
  error_fits = omega arith;
  total_size_fits = omega arith;
  data_size_fits = omega arith;
}

abbrev pub guest_access : AccessMask
guest_access = record { bits = 5 }
