-- ===== src/Net/Connection.antt =====
-- ConnectionBase of src/hotline/net/include/hotline/net/connection.h: its data, and the socket as
-- the connection sees it. The operations are in the child modules.
pub mod Send
pub mod Receive
pub mod Parsing
pub mod Stream
pub mod Flush
pub mod Delivery
pub mod Sent
pub mod Policy
pub mod Reading
pub mod Parts
pub mod Sealed
pub mod Drain
pub mod Outcome
use slopline.Base.{ℕ, Bool, false, List, [], ◌∷◌, Option, none, Expected}
use slopline.Protocol.Transaction.{TransactionHeader}

pub data ConnectionState : Type 0 where
  idle awaiting_handshake_reply awaiting_handshake established closing dead : ConnectionState

pub data ReceiveStage : Type 0 where
  handshake header body : ReceiveStage

-- src/appwarrior/net/include/appwarrior/net/net_error.h
pub data NetError : Type 0 where
  would_block interrupted connection_closed connection_refused address_in_use invalid_argument
        system :
      NetError

-- An aw::net::Socket: what the system will answer to the calls of `send` that are still to come (it
-- would block after the last), and what it has taken so far.
pub record Socket : Type 0 where
  pub is_open : Bool
  pub answers : List (Expected NetError ℕ)
  pub sent : List ℕ

-- The callbacks that have been made, the latest first.
pub data Event : Type 0 where
  on_established : Event
  on_transaction : TransactionHeader → List ℕ → Event
  on_closed : Event

-- The hooks of an encrypted connection over a cipher's state `C`; an empty std::function is `none`.
pub record ConnectionCryptoHooks (C : Type 0) : Type 0 where
  pub choose_flag : Option (C → ℕ × C)
  pub encode : Option (C → List ℕ → List ℕ → ℕ → List ℕ × List ℕ × C)
  pub decode_header : Option (C → List ℕ → ℕ × List ℕ × C)
  pub decode_data : Option (C → List ℕ → ℕ → List ℕ × C)

abbrev pub no_hooks : {C : Type 0} → ConnectionCryptoHooks C
no_hooks = record { choose_flag = none; encode = none; decode_header = none; decode_data = none }

pub record PendingSend : Type 0 where
  pub bytes : List ℕ
  pub offset : ℕ

-- An entry of the map `partial_`, with its key (is_reply, id).
pub record PartialReceive : Type 0 where
  pub is_reply : ℕ
  pub id : ℕ
  pub header : TransactionHeader
  pub received : List ℕ

-- The last two are the members of the derived ServerConnection, which a client leaves alone.
pub record Connection (C : Type 0) : Type 0 where
  pub max_receive_size : ℕ
  pub state : ConnectionState
  pub socket : Socket
  pub crypto : ConnectionCryptoHooks C
  pub cipher : C
  pub receive_stage : ReceiveStage
  pub expected_bytes : ℕ
  pub inbound : List ℕ
  pub pending_header : TransactionHeader
  pub pending_flag : ℕ
  pub pending_data : List ℕ
  pub partial : List PartialReceive
  pub send_queue : List PendingSend
  pub events : List Event
  pub remote_sub_protocol : ℕ
  pub remote_version : ℕ

module _ {C : Type 0} where
  -- The base class's constructor; the members that C++ leaves as they are stand at 0.
  unfoldable pub new_connection : ℕ → C → ℕ → Connection C
  new_connection max_receive_size cipher expected_bytes = record {
    max_receive_size = max_receive_size;
    state = ConnectionState.idle;
    socket = record { is_open = false; answers = []; sent = [] };
    crypto = no_hooks;
    cipher = cipher;
    receive_stage = ReceiveStage.handshake;
    expected_bytes = expected_bytes;
    inbound = [];
    pending_header = record {
      flag = 0;
      is_reply = 0;
      type = 100;
      id = 0;
      error = 0;
      total_size = 0;
      data_size = 0;
    };
    pending_flag = 0;
    pending_data = [];
    partial = [];
    send_queue = [];
    events = [];
    remote_sub_protocol = 0;
    remote_version = 0;
  }

  -- ConnectionBase::mark_established.
  unfoldable pub mark_established : Connection C → Connection C
  mark_established c = record c {
    state = ConnectionState.established;
    events = on_established ∷ c.events;
  }
