-- ===== src/Roles/Client.antt =====
-- src/hotline/client/src/connection.cpp: ClientConnection.
use slopline.Base.{
  ℕ, ◌≤◌, List, Expected, ok, err, length, take, drop, length-drop, take-append_le, drop-append_le,
  ◌≡◌, refl, ap, arith,
}
use slopline.Protocol.Constants.{protocol_tr_tp, protocol_version, server_handshake_reply_size}
use slopline.Protocol.Handshake.{
  ServerHandshakeReply, ServerHandshakeReplyValidation, encode_client_handshake,
  try_decode_server_handshake_reply, validate_server_handshake_reply,
}
use slopline.Core.Errors.{DecodeError}
use slopline.Net.Connection.{Connection, ConnectionState, Socket, new_connection, mark_established}
use slopline.Net.Connection.Send.{mark_dead, queue_bytes, flush_sends}
use slopline.Net.Connection.Parsing.{feed, IsHandler, mark_dead-feed, mark_dead-inbound}

module _ {C : Type 0} where
  unfoldable pub new_client : ℕ → C → Connection C
  new_client max_receive_size cipher =
      new_connection max_receive_size cipher server_handshake_reply_size

  unfoldable pub start_client : Connection C → Socket → ℕ → ℕ → Connection C
  start_client c socket sub_protocol sub_version = flush_sends (
      queue_bytes (record c { socket = socket; state = ConnectionState.awaiting_handshake_reply })
        (encode_client_handshake (record {
          protocol = protocol_tr_tp;
          sub_protocol = sub_protocol;
          version = protocol_version;
          sub_version = sub_version;
        })))

  -- What the client does with a reply that it has decoded.
  unfoldable pub client_on_reply : ServerHandshakeReplyValidation → Connection C → Connection C
  client_on_reply ServerHandshakeReplyValidation.accepted c = mark_established c
  client_on_reply _ c = mark_dead c

  unfoldable pub client_on_bytes :
      Expected DecodeError ServerHandshakeReply → Connection C → Connection C
  client_on_bytes (err e) c = mark_dead c
  client_on_bytes (ok reply) c =
      client_on_reply (validate_server_handshake_reply reply)
        (record c { inbound = drop server_handshake_reply_size c.inbound })

  unfoldable pub client_handshake : Connection C → Connection C
  client_handshake c =
      client_on_bytes
        (try_decode_server_handshake_reply (take server_handshake_reply_size c.inbound)) c

  client_on_reply-inbound :
      (v : ServerHandshakeReplyValidation) (c : Connection C)
      → (client_on_reply v c).inbound ≡ c.inbound
  unfolding client_on_reply mark_established
  client_on_reply-inbound ServerHandshakeReplyValidation.accepted c = refl
  client_on_reply-inbound ServerHandshakeReplyValidation.format_unknown c = mark_dead-inbound c
  client_on_reply-inbound ServerHandshakeReplyValidation.version_unknown c = mark_dead-inbound c

  client_on_reply-feed :
      (v : ServerHandshakeReplyValidation) (c : Connection C) (more : List ℕ)
      → client_on_reply v (feed more c) ≡ feed more (client_on_reply v c)
  unfolding client_on_reply mark_established
  client_on_reply-feed ServerHandshakeReplyValidation.accepted c more = refl
  client_on_reply-feed ServerHandshakeReplyValidation.format_unknown c more = mark_dead-feed c more
  client_on_reply-feed ServerHandshakeReplyValidation.version_unknown c more = mark_dead-feed c more

  client_on_bytes-inbound :
      (r : Expected DecodeError ServerHandshakeReply) (c : Connection C)
      → length (client_on_bytes r c).inbound ≤ length c.inbound
  unfolding client_on_bytes
  client_on_bytes-inbound (err e) c = omega (arith, ap (length {A = ℕ}) (mark_dead-inbound c))
  client_on_bytes-inbound (ok reply) c =
      let taken = record c { inbound = drop server_handshake_reply_size c.inbound } in
      let v = validate_server_handshake_reply reply in
      omega (
        arith,
        ap (length {A = ℕ}) (client_on_reply-inbound v taken),
        length-drop server_handshake_reply_size c.inbound,
      )

  client_on_bytes-feed :
      (r : Expected DecodeError ServerHandshakeReply) (c : Connection C) (more : List ℕ)
      → server_handshake_reply_size ≤ length c.inbound
      → client_on_bytes r (feed more c) ≡ feed more (client_on_bytes r c)
  unfolding client_on_bytes
  client_on_bytes-feed (err e) c more h = mark_dead-feed c more
  client_on_bytes-feed (ok reply) c more h =
      rw (drop-append_le server_handshake_reply_size c.inbound more h)
        (client_on_reply-feed (validate_server_handshake_reply reply) _ more)

  -- The client's handshake keeps the base class's contract.
  pub client_handshake-IsHandler : IsHandler server_handshake_reply_size client_handshake
  unfolding client_handshake
  client_handshake-IsHandler = record {
    shrinks = λ c. client_on_bytes-inbound _ c;
    ignores_rest = λ c more h.
        rw (take-append_le server_handshake_reply_size c.inbound more h)
          (client_on_bytes-feed _ c more h);
  }
