-- ===== src/Protocol/Handshake.antt =====
-- src/hotline/protocol/include/hotline/protocol/handshake.h and src/handshake.cpp: the two messages
-- that establish a connection, and the policy by which each side accepts the other's.
pub mod Policy
use slopline.Base.{
  ℕ, ◌<◌, ◌^◌, ◌++◌, Bool, true, false, not, ◌&&◌, List, ◌==◌, if◌then◌else◌, subspan, Expected, ok,
  err, ◌>>=◌,
}
use slopline.Core.Errors.{DecodeError, exact_size}
use slopline.Core.Endian.{read_u16be, read_u32be, write_u16be, write_u32be}
use slopline.Protocol.Constants.{
  protocol_tr_tp, protocol_nick, protocol_version, client_handshake_size,
  server_handshake_reply_size,
}

pub record ClientHandshake : Type 0 where
  pub protocol : ℕ
  pub sub_protocol : ℕ
  pub version : ℕ
  pub sub_version : ℕ

pub record ServerHandshakeReply : Type 0 where
  pub protocol : ℕ
  pub error : ℕ

pub encode_client_handshake : ClientHandshake → List ℕ
encode_client_handshake handshake =
    write_u32be handshake.protocol
    ++ (write_u32be handshake.sub_protocol
        ++ (write_u16be handshake.version ++ write_u16be handshake.sub_version))

pub decode_client_handshake : List ℕ → ClientHandshake
decode_client_handshake bytes = record {
  protocol = read_u32be (subspan 0 4 bytes);
  sub_protocol = read_u32be (subspan 4 4 bytes);
  version = read_u16be (subspan 8 2 bytes);
  sub_version = read_u16be (subspan 10 2 bytes);
}

pub encode_server_handshake_reply : ServerHandshakeReply → List ℕ
encode_server_handshake_reply reply = write_u32be reply.protocol ++ write_u32be reply.error

pub decode_server_handshake_reply : List ℕ → ServerHandshakeReply
decode_server_handshake_reply bytes = record {
  protocol = read_u32be (subspan 0 4 bytes);
  error = read_u32be (subspan 4 4 bytes);
}

pub try_decode_client_handshake : List ℕ → Expected DecodeError ClientHandshake
try_decode_client_handshake bytes = do
  bytes ← exact_size client_handshake_size bytes
  ok (decode_client_handshake bytes)

pub try_decode_server_handshake_reply : List ℕ → Expected DecodeError ServerHandshakeReply
try_decode_server_handshake_reply bytes = do
  bytes ← exact_size server_handshake_reply_size bytes
  ok (decode_server_handshake_reply bytes)

pub data ClientHandshakeValidation : Type 0 where
  accepted not_transaction_client incompatible_version : ClientHandshakeValidation

pub validate_client_handshake : ClientHandshake → ClientHandshakeValidation
validate_client_handshake handshake =
    if not (handshake.protocol == protocol_tr_tp) && not (handshake.protocol == protocol_nick)
    then ClientHandshakeValidation.not_transaction_client
    else if not (handshake.version == protocol_version)
    then ClientHandshakeValidation.incompatible_version
    else ClientHandshakeValidation.accepted

pub data ServerHandshakeReplyValidation : Type 0 where
  accepted format_unknown version_unknown : ServerHandshakeReplyValidation

pub validate_server_handshake_reply : ServerHandshakeReply → ServerHandshakeReplyValidation
validate_server_handshake_reply reply =
    if not (reply.protocol == protocol_tr_tp) && not (reply.protocol == protocol_nick)
    then ServerHandshakeReplyValidation.format_unknown
    else if not (reply.error == 0)
    then ServerHandshakeReplyValidation.version_unknown
    else ServerHandshakeReplyValidation.accepted

unfoldable pub normalize_reject_reason : ℕ → ℕ
normalize_reject_reason reason = if reason == 0 then 1 else reason

pub record IsClientHandshake (handshake : ClientHandshake) : Type 0 where
  pub protocol_fits : handshake.protocol < 2 ^ 32
  pub sub_protocol_fits : handshake.sub_protocol < 2 ^ 32
  pub version_fits : handshake.version < 2 ^ 16
  pub sub_version_fits : handshake.sub_version < 2 ^ 16

pub record IsReply (reply : ServerHandshakeReply) : Type 0 where
  pub protocol_fits : reply.protocol < 2 ^ 32
  pub error_fits : reply.error < 2 ^ 32
