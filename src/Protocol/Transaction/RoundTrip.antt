-- ===== src/Protocol/Transaction/RoundTrip.antt =====
-- The transaction header's codec.
use slopline.Base.{get_or, ℕ, List, length, take, drop, ok, ◌≡◌, refl, ap, take-append, drop-append}
use slopline.Core.Errors.{exact_size-eq-ok}
use slopline.Core.Endian.{write_u16be, write_u32be}
use slopline.Core.Endian.Laws.{read-write_u16be, read-write_u32be}
use slopline.Protocol.Constants.{transaction_header_size}
use slopline.Protocol.Transaction.{
  TransactionHeader, IsHeader, encode_header, decode_header, try_decode_header, encode_transaction,
}

pub length-encode_header :
    (header : TransactionHeader) → length (encode_header header) ≡ transaction_header_size
unfolding encode_header write_u16be write_u32be
length-encode_header header = refl

pub decode-encode_header :
    (header : TransactionHeader) → IsHeader header → decode_header (encode_header header) ≡ header
unfolding encode_header decode_header write_u16be write_u32be
decode-encode_header header h = λ i. record {
  flag = header.flag;
  is_reply = header.is_reply;
  type = read-write_u16be header.type h.type_fits i;
  id = read-write_u32be header.id h.id_fits i;
  error = read-write_u32be header.error h.error_fits i;
  total_size = read-write_u32be header.total_size h.total_size_fits i;
  data_size = read-write_u32be header.data_size h.data_size_fits i;
}

-- A transaction whose header's members hold their widths splits again: its first 20 bytes are read
-- back as the header, and the others are the data.
pub try_decode-encode_transaction :
    (header : TransactionHeader) (data_bytes : List ℕ)
    → IsHeader header
    → (try_decode_header (take transaction_header_size (encode_transaction header data_bytes))
        ≡ ok header)
      × (drop transaction_header_size (encode_transaction header data_bytes) ≡ data_bytes)
unfolding try_decode_header encode_transaction
try_decode-encode_transaction header data_bytes h = (
  rw
      (
        take-append transaction_header_size (encode_header header) data_bytes
            (length-encode_header header),
        exact_size-eq-ok transaction_header_size (encode_header header)
            (length-encode_header header),
      )
      (ap ok (decode-encode_header header h)),
  drop-append transaction_header_size (encode_header header) data_bytes
      (length-encode_header header),
)

pub get_or-encode_header :
    (header : TransactionHeader) → get_or (encode_header header) 0 0 ≡ header.flag
unfolding encode_header
get_or-encode_header header = refl
