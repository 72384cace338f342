-- ===== src/Net/Connection/Delivery.antt =====
-- From one connection to the other: the transactions that a peer queues are the ones that are
-- dispatched here, in their order.
use slopline.Base.{
  append_assoc, ℕ, suc, ◌+◌, ◌*◌, ◌≤◌, ◌<◌, false, ◌||◌, List, [], ◌∷◌, ◌++◌, none, some, length,
  take-append, drop-append, length-append, le→ltb, eq→==, All, ◌≡◌, refl, sym, ap, ◌∙◌, arith,
  again, run, run_again, run_done, run_enough,
}
use slopline.Protocol.Constants.{transaction_header_size}
use slopline.Protocol.Transaction.{TransactionHeader, IsHeader, encode_header}
use slopline.Protocol.Transaction.RoundTrip.{length-encode_header, decode-encode_header}
use slopline.Net.Connection.{Connection, ReceiveStage, Event, on_transaction}
use slopline.Net.Connection.Send.{is_dead, is_closing}
use slopline.Net.Connection.Receive.{
  rejects, dispatch, open_data, complete_transaction, open_header, header_taken, policed,
  receive_header, next_header, receive_data, receive_stage_round, parse_round, parse_inbound,
}
use slopline.Net.Connection.Parsing.{IsHandler, measure}
use slopline.Net.Connection.Stream.{parse_round_falls, measure_bound}

-- Past the handshake, alive, and with no decoding hooks.
pub record IsPlain {C : Type 0} (c : Connection C) : Type 0 where
  pub live : is_dead c.state || is_closing c.state ≡ false
  pub stage : c.receive_stage ≡ ReceiveStage.header
  pub header_plain : c.crypto.decode_header ≡ none
  pub data_plain : c.crypto.decode_data ≡ none

-- A transaction in one part that the receive policy admits.
abbrev pub Admitted : ℕ → TransactionHeader × List ℕ → Type 0
Admitted max_receive_size (header, bytes) =
    IsHeader header
    × (header.total_size ≡ length bytes)
    × (header.data_size ≡ length bytes)
    × (0 < length bytes)
    × (length bytes ≤ max_receive_size)

abbrev pub stream : List (TransactionHeader × List ℕ) → List ℕ
stream [] = []
stream ((header, bytes) ∷ more) = encode_header header ++ (bytes ++ stream more)

abbrev pub dispatched : List (TransactionHeader × List ℕ) → List Event → List Event
dispatched [] events = events
dispatched ((header, bytes) ∷ more) events = dispatched more (on_transaction header bytes ∷ events)

pub stream-append :
    (front back : List (TransactionHeader × List ℕ))
    → stream (front ++ back) ≡ stream front ++ stream back
stream-append [] back = refl
stream-append ((header, bytes) ∷ front) back =
    ap (λ tail. encode_header header ++ (bytes ++ tail)) (stream-append front back)
    ∙ simp append_assoc refl

pub dispatched-append :
    (front back : List (TransactionHeader × List ℕ)) (events : List Event)
    → dispatched (front ++ back) events ≡ dispatched back (dispatched front events)
dispatched-append [] back events = refl
dispatched-append ((header, bytes) ∷ front) back events =
    dispatched-append front back (on_transaction header bytes ∷ events)

module _ {C : Type 0} where
  abbrev with_inbound : List ℕ → Connection C → Connection C
  with_inbound bytes c = record c { inbound = bytes }

  -- Behind the header, and behind the data.
  abbrev opened : Connection C → TransactionHeader → List ℕ → Connection C
  opened c header tail = record c {
    inbound = tail;
    pending_flag = 0;
    pending_header = header;
    pending_data = [];
    receive_stage = ReceiveStage.body;
    expected_bytes = header.data_size;
  }

  abbrev received : Connection C → TransactionHeader → List ℕ → List ℕ → Connection C
  received c header bytes rest = record c {
    inbound = rest;
    pending_flag = 0;
    pending_header = header;
    pending_data = [];
    receive_stage = ReceiveStage.header;
    expected_bytes = transaction_header_size;
    events = on_transaction header bytes ∷ c.events;
  }

  Admitted-passes :
      (c : Connection C) (header : TransactionHeader) (bytes : List ℕ)
      → Admitted c.max_receive_size (header, bytes)
      → rejects c.max_receive_size header ≡ false
  unfolding rejects
  Admitted-passes c header bytes (fits, total, size, positive, small) = ground arith

module _ {C : Type 0} (handle : Connection C → Connection C) where
  header_round :
      (c : Connection C) (header : TransactionHeader) (bytes tail : List ℕ)
      → IsPlain c
      → Admitted c.max_receive_size (header, bytes)
      → parse_round handle (with_inbound (encode_header header ++ tail) c)
        ≡ again (opened c header tail)
  unfolding parse_round receive_stage_round receive_header header_taken open_header policed
  header_round c header bytes tail plain fits =
      rw
        (
          plain.live,
          plain.stage,
          le→ltb (length (encode_header header ++ tail)) transaction_header_size (
              omega
                (arith, length-append (encode_header header) tail, length-encode_header header)),
          plain.header_plain,
          take-append transaction_header_size (encode_header header) tail
              (length-encode_header header),
          drop-append transaction_header_size (encode_header header) tail
              (length-encode_header header),
          decode-encode_header header fits.0,
          Admitted-passes c header bytes fits,
        )
        refl

  body_round :
      (c : Connection C) (header : TransactionHeader) (bytes rest : List ℕ)
      → IsPlain c
      → Admitted c.max_receive_size (header, bytes)
      → parse_round handle (opened c header (bytes ++ rest)) ≡ again (received c header bytes rest)
  unfolding parse_round receive_stage_round receive_data complete_transaction open_data dispatch
      next_header
  body_round c header bytes rest plain (fits, total, size, positive, small) =
      rw
        (
          plain.live,
          le→ltb (length (bytes ++ rest)) header.data_size
              (omega (arith, length-append bytes rest)),
          plain.data_plain,
          take-append header.data_size bytes rest (sym size),
          drop-append header.data_size bytes rest (sym size),
          eq→== header.total_size header.data_size (omega arith),
        )
        refl

received-IsPlain :
    {C : Type 0} (c : Connection C) (header : TransactionHeader) (bytes rest : List ℕ)
    → IsPlain c
    → IsPlain (received c header bytes rest)
received-IsPlain c header bytes rest plain = record {
  live = plain.live;
  stage = refl;
  header_plain = plain.header_plain;
  data_plain = plain.data_plain;
}

module _ {C : Type 0} (handle : Connection C → Connection C) {size : ℕ}
    (laws : IsHandler size handle) where
  empty_inbound :
      (c : Connection C)
      → IsPlain c
      → parse_inbound handle (with_inbound [] c) ≡ some (with_inbound [] c)
  unfolding parse_inbound
  empty_inbound c plain =
      run_done (parse_round handle) 1 (with_inbound [] c) (with_inbound [] c)
        (unfold parse_round receive_stage_round receive_header in rw (plain.live, plain.stage) refl)

  one_transaction :
      (c : Connection C) (header : TransactionHeader) (bytes rest : List ℕ)
      → IsPlain c
      → Admitted c.max_receive_size (header, bytes)
      → parse_inbound handle (with_inbound (encode_header header ++ (bytes ++ rest)) c)
        ≡ parse_inbound handle (received c header bytes rest)
  unfolding parse_inbound
  one_transaction c header bytes rest plain fits =
      let before = with_inbound (encode_header header ++ (bytes ++ rest)) c in
      let half = opened c header (bytes ++ rest) in
      let after = received c header bytes rest in
      let falls_half =
        parse_round_falls handle laws before half
          (header_round handle c header bytes (bytes ++ rest) plain fits) in
      let falls_after =
        parse_round_falls handle laws half after
          (body_round handle c header bytes rest plain fits) in
      let fuel = 2 * length before.inbound in
      let bound = measure_bound handle laws before in
      ap (λ (n : ℕ). run (parse_round handle) n before) {x = fuel + 2} {y = suc (suc fuel)}
        (omega arith)
      ∙ run_again (parse_round handle) (suc fuel) before half
          (header_round handle c header bytes (bytes ++ rest) plain fits)
      ∙ run_again (parse_round handle) fuel half after
          (body_round handle c header bytes rest plain fits)
      ∙ run_enough (parse_round handle) measure (parse_round_falls handle laws) fuel
          (2 * length after.inbound + 2) after (omega (arith, falls_half, falls_after, bound))
          (measure_bound handle laws after)

  -- A live connection past its handshake, without hooks, that gets a stream of transactions in one
  -- part each, every one of 1 to max_receive_size bytes: it dispatches exactly these, in their
  -- order, takes all the input and waits for the next header.
  pub parse_inbound-stream :
      (transactions : List (TransactionHeader × List ℕ)) (c : Connection C)
      → IsPlain c
      → All (Admitted c.max_receive_size) transactions
      → c.inbound ≡ stream transactions
      → (t : Connection C) × (parse_inbound handle c ≡ some t)
        × IsPlain t
        × (t.inbound ≡ [])
        × (t.events ≡ dispatched transactions c.events)
  parse_inbound-stream [] c plain all e = (
    with_inbound [] c,
    ap (λ bytes. parse_inbound handle (with_inbound bytes c)) e ∙ empty_inbound c plain,
    record {
      live = plain.live;
      stage = plain.stage;
      header_plain = plain.header_plain;
      data_plain = plain.data_plain;
    },
    refl,
    refl,
  )
  parse_inbound-stream ((header, bytes) ∷ more) c plain (fits, all) e =
      let after = received c header bytes (stream more) in
      let (t, ends, is_plain, taken, events) =
        parse_inbound-stream more after (received-IsPlain c header bytes (stream more) plain) all
          refl in
      (
        t,
        ap (λ bytes. parse_inbound handle (with_inbound bytes c)) e
            ∙ one_transaction c header bytes (stream more) plain fits
            ∙ ends,
        is_plain,
        taken,
        events,
      )
