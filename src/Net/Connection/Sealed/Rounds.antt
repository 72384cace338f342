-- ===== src/Net/Connection/Sealed/Rounds.antt =====
-- src/hotline/net/src/connection.cpp with hooks: the round that takes a sealed header, and the round that
-- takes the data behind it.
use slopline.Base.{
  ℕ, false, List, ◌++◌, length, take-append, drop-append, length-append, le→ltb, eq→==, ◌≡◌, refl,
  ◌∙◌, arith, again,
}
use slopline.Protocol.Constants.{transaction_header_size}
use slopline.Protocol.Transaction.{TransactionHeader, encode_header}
use slopline.Protocol.Transaction.RoundTrip.{
  length-encode_header, decode-encode_header, get_or-encode_header,
}
use slopline.Net.Connection.{Connection}
use slopline.Net.Connection.Receive.{
  rejects, dispatch, open_data, complete_transaction, open_header, header_taken, policed,
  receive_header, next_header, receive_data, receive_stage_round, parse_round,
}
use slopline.Net.Connection.Delivery.{Admitted}
use slopline.Net.Connection.Sealed.{IsTunnel, IsSealed, with_inbound, opened, received}

module _ {C : Type 0} (Step : C → C → Type 0)
    (encode : C → List ℕ → List ℕ → ℕ → List ℕ × List ℕ × C)
    (decode_header : C → List ℕ → ℕ × List ℕ × C) (decode_data : C → List ℕ → ℕ → List ℕ × C)
    (tunnel : IsTunnel Step encode decode_header decode_data) where
  Admitted-passes :
      (c : Connection C) (header : TransactionHeader) (bytes : List ℕ)
      → Admitted c.max_receive_size (header, bytes)
      → rejects c.max_receive_size header ≡ false
  unfolding rejects
  Admitted-passes c header bytes (fits, total, size, positive, small) = ground arith

  module _ (handle : Connection C → Connection C) where
    pub header_round :
        (c : Connection C) (a : C) (header : TransactionHeader) (bytes tail : List ℕ)
        → IsSealed decode_header decode_data c
        → Step a c.cipher
        → Admitted c.max_receive_size (header, bytes)
        → let sent = encode a (encode_header header) bytes header.flag in
          parse_round handle (with_inbound (sent.0 ++ tail) c)
          ≡ again (opened c header (decode_header c.cipher sent.0).2 tail)
    unfolding parse_round receive_stage_round receive_header header_taken open_header policed
    header_round c a header bytes tail sealed step fits =
        let sent = encode a (encode_header header) bytes header.flag in
        let size : length sent.0 ≡ 20 =
          tunnel.header_size a (encode_header header) bytes header.flag
          ∙ length-encode_header header in
        rw
          (
            sealed.live,
            sealed.stage,
            le→ltb (length (sent.0 ++ tail)) transaction_header_size
                (omega (arith, length-append sent.0 tail)),
            sealed.header_hook,
            take-append transaction_header_size sent.0 tail size,
            drop-append transaction_header_size sent.0 tail size,
            tunnel.opens_flag a c.cipher (encode_header header) bytes header.flag step
                (get_or-encode_header header),
            tunnel.opens_header a c.cipher (encode_header header) bytes header.flag step
                (get_or-encode_header header),
            decode-encode_header header fits.0,
            Admitted-passes c header bytes fits,
          )
          refl

    pub body_round :
        (c : Connection C) (a : C) (header : TransactionHeader) (bytes rest : List ℕ)
        → IsSealed decode_header decode_data c
        → Step a c.cipher
        → Admitted c.max_receive_size (header, bytes)
        → let sent = encode a (encode_header header) bytes header.flag in
          let begun = (decode_header c.cipher sent.0).2 in
          parse_round handle (opened c header begun (sent.1 ++ rest))
          ≡ again (received c header bytes (decode_data begun sent.1 header.flag).1 rest)
    unfolding parse_round receive_stage_round receive_data complete_transaction open_data dispatch
        next_header
    body_round c a header bytes rest sealed step (fits, total, size, positive, small) =
        let sent = encode a (encode_header header) bytes header.flag in
        let long : length sent.1 ≡ length bytes =
          tunnel.data_size a (encode_header header) bytes header.flag in
        rw
          (
            sealed.live,
            le→ltb (length (sent.1 ++ rest)) header.data_size
                (omega (arith, length-append sent.1 rest)),
            sealed.data_hook,
            take-append header.data_size sent.1 rest (omega arith),
            drop-append header.data_size sent.1 rest (omega arith),
            tunnel.opens_data a c.cipher (encode_header header) bytes header.flag step
                (get_or-encode_header header),
            eq→== header.total_size header.data_size (omega arith),
          )
          refl

    pub received-IsSealed :
        (c : Connection C) (header : TransactionHeader) (bytes : List ℕ) (cipher : C)
        (rest : List ℕ)
        → IsSealed decode_header decode_data c
        → IsSealed decode_header decode_data (received c header bytes cipher rest)
    received-IsSealed c header bytes cipher rest sealed = record {
      live = sealed.live;
      stage = refl;
      header_hook = sealed.header_hook;
      data_hook = sealed.data_hook;
    }
