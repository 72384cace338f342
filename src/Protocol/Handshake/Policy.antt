-- ===== src/Protocol/Handshake/Policy.antt =====
-- The handshake messages are read back, and the policy accepts what the protocol allows.
use slopline.Base.{ℕ, length, ok, ◌≡◌, ◌≢◌, ◌⊎◌, ◌↔◌, refl, arith}
use slopline.Core.Errors.{exact_size-eq-ok}
use slopline.Core.Endian.{write_u16be, write_u32be}
use slopline.Core.Endian.Laws.{read-write_u16be, read-write_u32be}
use slopline.Protocol.Constants.{
  protocol_tr_tp, protocol_nick, protocol_version, client_handshake_size,
  server_handshake_reply_size,
}
use slopline.Protocol.Handshake.{
  ClientHandshake, ServerHandshakeReply, IsClientHandshake, IsReply, encode_client_handshake,
  decode_client_handshake, encode_server_handshake_reply, decode_server_handshake_reply,
  try_decode_client_handshake, try_decode_server_handshake_reply, ClientHandshakeValidation,
  ServerHandshakeReplyValidation, validate_client_handshake, validate_server_handshake_reply,
}

pub length-encode_client_handshake :
    (handshake : ClientHandshake)
    → length (encode_client_handshake handshake) ≡ client_handshake_size
unfolding encode_client_handshake write_u16be write_u32be
length-encode_client_handshake handshake = refl

pub length-encode_server_handshake_reply :
    (reply : ServerHandshakeReply)
    → length (encode_server_handshake_reply reply) ≡ server_handshake_reply_size
unfolding encode_server_handshake_reply write_u32be
length-encode_server_handshake_reply reply = refl

-- A client handshake whose members hold their widths is read back from its 12 bytes.
pub try_decode-encode_client_handshake :
    (handshake : ClientHandshake)
    → IsClientHandshake handshake
    → try_decode_client_handshake (encode_client_handshake handshake) ≡ ok handshake
unfolding try_decode_client_handshake
try_decode-encode_client_handshake handshake h =
    rw
      (exact_size-eq-ok client_handshake_size (encode_client_handshake handshake)
        (length-encode_client_handshake handshake))
      (unfold encode_client_handshake decode_client_handshake write_u16be write_u32be in
        λ i. ok (record {
          protocol = read-write_u32be handshake.protocol h.protocol_fits i;
          sub_protocol = read-write_u32be handshake.sub_protocol h.sub_protocol_fits i;
          version = read-write_u16be handshake.version h.version_fits i;
          sub_version = read-write_u16be handshake.sub_version h.sub_version_fits i;
        }))

pub try_decode-encode_server_handshake_reply :
    (reply : ServerHandshakeReply)
    → IsReply reply
    → try_decode_server_handshake_reply (encode_server_handshake_reply reply) ≡ ok reply
unfolding try_decode_server_handshake_reply
try_decode-encode_server_handshake_reply reply h =
    rw
      (exact_size-eq-ok server_handshake_reply_size (encode_server_handshake_reply reply)
        (length-encode_server_handshake_reply reply))
      (unfold encode_server_handshake_reply decode_server_handshake_reply write_u32be in
        λ i. ok (record {
          protocol = read-write_u32be reply.protocol h.protocol_fits i;
          error = read-write_u32be reply.error h.error_fits i;
        }))

abbrev pub IsKnown : ℕ → Type 0
IsKnown tag = (tag ≡ protocol_tr_tp) ⊎ (tag ≡ protocol_nick)

-- The server accepts exactly the handshakes with a known tag and version 1, and names the wrong
-- version only under a known tag.
pub validate_client_handshake_iff :
    (handshake : ClientHandshake)
    → ((validate_client_handshake handshake ≡ ClientHandshakeValidation.accepted)
        ↔ (IsKnown handshake.protocol × (handshake.version ≡ protocol_version)))
      × ((validate_client_handshake handshake ≡ ClientHandshakeValidation.incompatible_version)
          ↔ (IsKnown handshake.protocol × (handshake.version ≢ protocol_version)))
unfolding validate_client_handshake
validate_client_handshake_iff handshake = ground arith

pub validate_server_handshake_reply_iff :
    (reply : ServerHandshakeReply)
    → (validate_server_handshake_reply reply ≡ ServerHandshakeReplyValidation.accepted)
      ↔ (IsKnown reply.protocol × (reply.error ≡ 0))
unfolding validate_server_handshake_reply
validate_server_handshake_reply_iff reply = ground arith
