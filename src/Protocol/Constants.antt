-- ===== src/Protocol/Constants.antt =====
-- src/hotline/protocol/include/hotline/protocol/constants.h. `TransactionType` and `FieldId` are
-- enums over std::uint16_t, and a decoder casts any wire value to them: they are numbers here.
pub mod TransactionType
pub mod FieldId
pub mod AccessPrivilege
use slopline.Base.{ℕ}
use slopline.Core.Endian.{four_cc}

abbrev pub protocol_tr_tp : ℕ
protocol_tr_tp = four_cc b'T' b'R' b'T' b'P'

abbrev pub protocol_nick : ℕ
protocol_nick = four_cc b'N' b'I' b'C' b'K'

abbrev pub sub_protocol_hotl : ℕ
sub_protocol_hotl = four_cc b'H' b'O' b'T' b'L'

abbrev pub protocol_version : ℕ
protocol_version = 1

abbrev pub client_sub_version : ℕ
client_sub_version = 2

abbrev pub framework_max_transaction_receive_size : ℕ
framework_max_transaction_receive_size = 2097152

abbrev pub transaction_header_size : ℕ
transaction_header_size = 20

abbrev pub client_handshake_size : ℕ
client_handshake_size = 12

abbrev pub server_handshake_reply_size : ℕ
server_handshake_reply_size = 8

abbrev pub max_field_data_size : ℕ
max_field_data_size = 65535

abbrev pub max_field_count : ℕ
max_field_count = 65535

abbrev pub folder_download_resume_file : ℕ
folder_download_resume_file = 2
