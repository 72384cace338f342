-- ===== src/Net/Connection/Sealed/Arrival.antt =====
-- src/hotline/net/src/connection.cpp with hooks: a stream of sealed transactions.
use slopline.Base.{
  ℕ, suc, ◌+◌, ◌*◌, List, [], ◌∷◌, ◌++◌, some, length, All, ◌≡◌, refl, ap, ◌∙◌, arith, run,
  run_again, run_done, run_enough,
}
use slopline.Protocol.Transaction.{TransactionHeader, encode_header}
use slopline.Protocol.Transaction.RoundTrip.{get_or-encode_header}
use slopline.Net.Connection.{Connection}
use slopline.Net.Connection.Receive.{
  receive_header, receive_stage_round, parse_round, parse_inbound,
}
use slopline.Net.Connection.Parsing.{IsHandler, measure}
use slopline.Net.Connection.Stream.{parse_round_falls, measure_bound}
use slopline.Net.Connection.Delivery.{Admitted, dispatched}
use slopline.Net.Connection.Sealed.{
  IsTunnel, sealed_stream, sender_after, IsSealed, with_inbound, opened, received,
}
use slopline.Net.Connection.Sealed.Rounds.{header_round, body_round, received-IsSealed}

module _ {C : Type 0} (Step : C → C → Type 0)
    (encode : C → List ℕ → List ℕ → ℕ → List ℕ × List ℕ × C)
    (decode_header : C → List ℕ → ℕ × List ℕ × C) (decode_data : C → List ℕ → ℕ → List ℕ × C)
    (tunnel : IsTunnel Step encode decode_header decode_data) where
  module _ (handle : Connection C → Connection C) {size : ℕ} (laws : IsHandler size handle) where
    empty_inbound :
        (c : Connection C)
        → IsSealed decode_header decode_data c
        → parse_inbound handle (with_inbound [] c) ≡ some (with_inbound [] c)
    unfolding parse_inbound
    empty_inbound c sealed =
        run_done (parse_round handle) 1 (with_inbound [] c) (with_inbound [] c) (
          unfold parse_round receive_stage_round receive_header in
          rw (sealed.live, sealed.stage) refl)

    -- Two rounds take one transaction.
    one_transaction :
        (c : Connection C) (a : C) (header : TransactionHeader) (bytes rest : List ℕ)
        → IsSealed decode_header decode_data c
        → Step a c.cipher
        → Admitted c.max_receive_size (header, bytes)
        → let sent = encode a (encode_header header) bytes header.flag in
          let begun = (decode_header c.cipher sent.0).2 in
          parse_inbound handle (with_inbound (sent.0 ++ (sent.1 ++ rest)) c)
          ≡ parse_inbound handle
              (received c header bytes (decode_data begun sent.1 header.flag).1 rest)
    unfolding parse_inbound
    one_transaction c a header bytes rest sealed step fits =
        let sent = encode a (encode_header header) bytes header.flag in
        let begun = (decode_header c.cipher sent.0).2 in
        let before = with_inbound (sent.0 ++ (sent.1 ++ rest)) c in
        let half = opened c header begun (sent.1 ++ rest) in
        let after = received c header bytes (decode_data begun sent.1 header.flag).1 rest in
        let first =
          header_round Step encode decode_header decode_data tunnel handle c a header bytes
            (sent.1 ++ rest) sealed step fits in
        let second =
          body_round Step encode decode_header decode_data tunnel handle c a header bytes rest
            sealed step fits in
        let falls_half = parse_round_falls handle laws before half first in
        let falls_after = parse_round_falls handle laws half after second in
        let fuel = 2 * length before.inbound in
        let bound = measure_bound handle laws before in
        ap (λ (n : ℕ). run (parse_round handle) n before) {x = fuel + 2} {y = suc (suc fuel)}
          (omega arith)
        ∙ run_again (parse_round handle) (suc fuel) before half first
        ∙ run_again (parse_round handle) fuel half after second
        ∙ run_enough (parse_round handle) measure (parse_round_falls handle laws) fuel
            (2 * length after.inbound + 2) after (omega (arith, falls_half, falls_after, bound))
            (measure_bound handle laws after)

    pub parse_inbound-sealed_stream :
        (transactions : List (TransactionHeader × List ℕ)) (c : Connection C) (a : C)
        → IsSealed decode_header decode_data c
        → Step a c.cipher
        → All (Admitted c.max_receive_size) transactions
        → c.inbound ≡ sealed_stream encode transactions a
        → (t : Connection C) × (parse_inbound handle c ≡ some t)
          × IsSealed decode_header decode_data t
          × Step (sender_after encode transactions a) t.cipher
          × (t.inbound ≡ [])
          × (t.events ≡ dispatched transactions c.events)
    unfolding sealed_stream sender_after
    parse_inbound-sealed_stream [] c a sealed step all e = (
      with_inbound [] c,
      ap (λ bytes. parse_inbound handle (with_inbound bytes c)) e ∙ empty_inbound c sealed,
      record {
        live = sealed.live;
        stage = sealed.stage;
        header_hook = sealed.header_hook;
        data_hook = sealed.data_hook;
      },
      step,
      refl,
      refl,
    )
    parse_inbound-sealed_stream ((header, bytes) ∷ more) c a sealed step (fits, all) e =
        let sent = encode a (encode_header header) bytes header.flag in
        let cipher = (decode_data (decode_header c.cipher sent.0).2 sent.1 header.flag).1 in
        let rest = sealed_stream encode more sent.2 in
        let after = received c header bytes cipher rest in
        let (t, ends, is_sealed, in_step, taken, events) =
          parse_inbound-sealed_stream more after sent.2
            (received-IsSealed Step encode decode_header decode_data tunnel handle c header bytes
              cipher rest sealed)
            (tunnel.keeps_step a c.cipher (encode_header header) bytes header.flag step
              (get_or-encode_header header))
            all refl in
        (
          t,
          ap (λ inbound. parse_inbound handle (with_inbound inbound c)) e
              ∙ one_transaction c a header bytes rest sealed step fits
              ∙ ends,
          is_sealed,
          in_step,
          taken,
          events,
        )
