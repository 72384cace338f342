-- ===== src/Protocol/Transaction.antt =====
-- src/hotline/protocol/include/hotline/protocol/transaction.h and src/transaction.cpp: the header
-- of 20 bytes, and a whole single-part transaction.
pub mod RoundTrip
use slopline.Base.{ℕ, ◌++◌, List, [], ◌∷◌, ◌<◌, ◌^◌, get_or, subspan, Expected, ok, err, ◌>>=◌}
use slopline.Core.Errors.{DecodeError, exact_size}
use slopline.Core.Endian.{read_u16be, read_u32be, write_u16be, write_u32be}
use slopline.Protocol.Constants.{transaction_header_size}

pub record TransactionHeader : Type 0 where
  pub flag : ℕ
  pub is_reply : ℕ
  pub type : ℕ
  pub id : ℕ
  pub error : ℕ
  pub total_size : ℕ
  pub data_size : ℕ

pub encode_header : TransactionHeader → List ℕ
encode_header header =
    header.flag
    ∷ header.is_reply
    ∷ (write_u16be header.type
        ++ (write_u32be header.id
            ++ (write_u32be header.error
                ++ (write_u32be header.total_size ++ write_u32be header.data_size))))

pub decode_header : List ℕ → TransactionHeader
decode_header bytes = record {
  flag = get_or bytes 0 0;
  is_reply = get_or bytes 1 0;
  type = read_u16be (subspan 2 2 bytes);
  id = read_u32be (subspan 4 4 bytes);
  error = read_u32be (subspan 8 4 bytes);
  total_size = read_u32be (subspan 12 4 bytes);
  data_size = read_u32be (subspan 16 4 bytes);
}

pub try_decode_header : List ℕ → Expected DecodeError TransactionHeader
try_decode_header bytes = do
  header ← exact_size transaction_header_size bytes
  ok (decode_header header)

pub encode_transaction : TransactionHeader → List ℕ → List ℕ
encode_transaction header data_bytes = encode_header header ++ data_bytes

-- The values that the members' types hold.
pub record IsHeader (header : TransactionHeader) : Type 0 where
  pub flag_fits : header.flag < 2 ^ 8
  pub is_reply_fits : header.is_reply < 2 ^ 8
  pub type_fits : header.type < 2 ^ 16
  pub id_fits : header.id < 2 ^ 32
  pub error_fits : header.error < 2 ^ 32
  pub total_size_fits : header.total_size < 2 ^ 32
  pub data_size_fits : header.data_size < 2 ^ 32
