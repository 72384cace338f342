-- ===== src/Net/Connection/Sealed.antt =====
-- src/hotline/net/src/connection.cpp with hooks: the transactions that a peer seals are the ones that
-- are dispatched here, in their order, and the two ciphers stay in step.
pub mod Rounds
pub mod Arrival
pub mod Tunnel
pub mod Sending
use slopline.Base.{
  append_assoc, ℕ, suc, ◌+◌, ◌*◌, ◌≤◌, ◌<◌, false, ◌||◌, List, [], ◌∷◌, ◌++◌, none, some, length,
  get_or, take-append, drop-append, length-append, le→ltb, eq→==, All, ◌≡◌, refl, sym, ap, subst,
  ◌∙◌, arith, again, run, run_again, run_done, run_enough,
}
use slopline.Protocol.Constants.{transaction_header_size}
use slopline.Protocol.Transaction.{TransactionHeader, IsHeader, encode_header}
use slopline.Protocol.Transaction.RoundTrip.{
  length-encode_header, decode-encode_header, get_or-encode_header,
}
use slopline.Net.Connection.{Connection, ReceiveStage, Event, on_transaction}
use slopline.Net.Connection.Send.{is_dead, is_closing}
use slopline.Net.Connection.Receive.{
  rejects, dispatch, open_data, complete_transaction, open_header, header_taken, policed,
  receive_header, next_header, receive_data, receive_stage_round, parse_round, parse_inbound,
}
use slopline.Net.Connection.Parsing.{IsHandler, measure}
use slopline.Net.Connection.Stream.{parse_round_falls, measure_bound}
use slopline.Net.Connection.Delivery.{Admitted, dispatched}

-- What a connection relies on in its hooks, where `Step a b` says that the cipher `b` decodes what
-- the cipher `a` encodes.
pub record IsTunnel {C : Type 0} (Step : C → C → Type 0)
    (encode : C → List ℕ → List ℕ → ℕ → List ℕ × List ℕ × C)
    (decode_header : C → List ℕ → ℕ × List ℕ × C) (decode_data : C → List ℕ → ℕ → List ℕ × C)
    : Type 0 where
  pub header_size :
      (a : C) (header bytes : List ℕ) (flag : ℕ)
      → length (encode a header bytes flag).0 ≡ length header
  pub data_size :
      (a : C) (header bytes : List ℕ) (flag : ℕ)
      → length (encode a header bytes flag).1 ≡ length bytes
  pub opens_flag :
      (a b : C) (header bytes : List ℕ) (flag : ℕ)
      → Step a b
      → get_or header 0 0 ≡ flag
      → (decode_header b (encode a header bytes flag).0).0 ≡ flag
  pub opens_header :
      (a b : C) (header bytes : List ℕ) (flag : ℕ)
      → Step a b
      → get_or header 0 0 ≡ flag
      → (decode_header b (encode a header bytes flag).0).1 ≡ header
  pub opens_data :
      (a b : C) (header bytes : List ℕ) (flag : ℕ)
      → Step a b
      → get_or header 0 0 ≡ flag
      → (decode_data
          (decode_header b (encode a header bytes flag).0).2
          (encode a header bytes flag).1
          flag).0
        ≡ bytes
  pub keeps_step :
      (a b : C) (header bytes : List ℕ) (flag : ℕ)
      → Step a b
      → get_or header 0 0 ≡ flag
      → Step
          (encode a header bytes flag).2
          (decode_data
            (decode_header b (encode a header bytes flag).0).2
            (encode a header bytes flag).1
            flag).1

module _ {C : Type 0} (encode : C → List ℕ → List ℕ → ℕ → List ℕ × List ℕ × C) where
  -- The transactions as they stand on the wire, and the sender's cipher behind them.
  unfoldable pub sealed_stream : List (TransactionHeader × List ℕ) → C → List ℕ
  sealed_stream [] a = []
  sealed_stream ((header, bytes) ∷ more) a =
      let sent = encode a (encode_header header) bytes header.flag in
      sent.0 ++ (sent.1 ++ sealed_stream more sent.2)

  unfoldable pub sender_after : List (TransactionHeader × List ℕ) → C → C
  sender_after [] a = a
  sender_after ((header, bytes) ∷ more) a =
      sender_after more (encode a (encode_header header) bytes header.flag).2

  pub sealed_stream-append :
      (front back : List (TransactionHeader × List ℕ)) (a : C)
      → sealed_stream (front ++ back) a
        ≡ sealed_stream front a ++ sealed_stream back (sender_after front a)
  unfolding sealed_stream sender_after
  sealed_stream-append [] back a = refl
  sealed_stream-append ((header, bytes) ∷ front) back a =
      let sent = encode a (encode_header header) bytes header.flag in
      ap (λ tail. sent.0 ++ (sent.1 ++ tail)) (sealed_stream-append front back sent.2)
      ∙ simp append_assoc refl

  pub sender_after-append :
      (front back : List (TransactionHeader × List ℕ)) (a : C)
      → sender_after (front ++ back) a ≡ sender_after back (sender_after front a)
  unfolding sender_after
  sender_after-append [] back a = refl
  sender_after-append ((header, bytes) ∷ front) back a =
      sender_after-append front back (encode a (encode_header header) bytes header.flag).2

-- Past the handshake, alive, and with these hooks.
pub record IsSealed {C : Type 0} (decode_header : C → List ℕ → ℕ × List ℕ × C)
    (decode_data : C → List ℕ → ℕ → List ℕ × C) (c : Connection C) : Type 0 where
  pub live : is_dead c.state || is_closing c.state ≡ false
  pub stage : c.receive_stage ≡ ReceiveStage.header
  pub header_hook : c.crypto.decode_header ≡ some decode_header
  pub data_hook : c.crypto.decode_data ≡ some decode_data

module _ {C : Type 0} where
  abbrev pub with_inbound : List ℕ → Connection C → Connection C
  with_inbound bytes c = record c { inbound = bytes }

  -- Behind the header, and behind the data.
  abbrev pub opened : Connection C → TransactionHeader → C → List ℕ → Connection C
  opened c header cipher tail = record c {
    inbound = tail;
    cipher = cipher;
    pending_flag = header.flag;
    pending_header = header;
    pending_data = [];
    receive_stage = ReceiveStage.body;
    expected_bytes = header.data_size;
  }

  abbrev pub received : Connection C → TransactionHeader → List ℕ → C → List ℕ → Connection C
  received c header bytes cipher rest = record c {
    inbound = rest;
    cipher = cipher;
    pending_flag = header.flag;
    pending_header = header;
    pending_data = [];
    receive_stage = ReceiveStage.header;
    expected_bytes = transaction_header_size;
    events = on_transaction header bytes ∷ c.events;
  }
