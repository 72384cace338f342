-- ===== src/Roles/Server.antt =====
-- src/hotline/server/src/connection.cpp: ServerConnection.
use slopline.Base.{
  ℕ, ◌≤◌, List, Expected, ok, err, length, take, drop, length-drop, take-append_le, drop-append_le,
  ◌≡◌, ap, sym, subst, ◌∙◌, arith,
}
use slopline.Protocol.Constants.{protocol_tr_tp, client_handshake_size}
use slopline.Protocol.Handshake.{
  ClientHandshake, ClientHandshakeValidation, ServerHandshakeReply, encode_server_handshake_reply,
  try_decode_client_handshake, validate_client_handshake, normalize_reject_reason,
}
use slopline.Core.Errors.{DecodeError}
use slopline.Net.Connection.{Connection, ConnectionState, Socket, new_connection, mark_established}
use slopline.Net.Connection.Send.{mark_dead, queue_bytes, flush_sends}
use slopline.Net.Connection.Parsing.{feed, IsHandler, mark_dead-feed, mark_dead-inbound}
use slopline.Net.Connection.Flush.{
  flush_sends-inbound, flush_sends-feed, queue_bytes-inbound, queue_bytes-feed,
}

-- A reply with the members' defaults: the tag 'TRTP'.
abbrev pub reply_with : ℕ → ServerHandshakeReply
reply_with error = record { protocol = protocol_tr_tp; error = error }

module _ {C : Type 0} where
  unfoldable pub new_server : ℕ → C → Connection C
  new_server max_receive_size cipher = new_connection max_receive_size cipher client_handshake_size

  unfoldable pub start_server : Connection C → Socket → Connection C
  start_server c socket = record c { socket = socket; state = ConnectionState.awaiting_handshake }

  abbrev pub erase_handshake : Connection C → Connection C
  erase_handshake c = record c { inbound = drop client_handshake_size c.inbound }

  -- What the server does with a handshake that it has decoded.
  unfoldable pub server_on_handshake : ClientHandshakeValidation → Connection C → Connection C
  server_on_handshake ClientHandshakeValidation.not_transaction_client c =
      mark_dead (erase_handshake c)
  server_on_handshake ClientHandshakeValidation.incompatible_version c =
      let reject = encode_server_handshake_reply (reply_with (normalize_reject_reason 1)) in
      flush_sends
        (record (erase_handshake (queue_bytes c reject)) { state = ConnectionState.closing })
  server_on_handshake ClientHandshakeValidation.accepted c = flush_sends (
      mark_established
        (erase_handshake (queue_bytes c (encode_server_handshake_reply (reply_with 0)))))

  unfoldable pub server_on_bytes :
      Expected DecodeError ClientHandshake → Connection C → Connection C
  server_on_bytes (err e) c = mark_dead c
  server_on_bytes (ok handshake) c =
      server_on_handshake (validate_client_handshake handshake) (record c {
        remote_sub_protocol = handshake.sub_protocol;
        remote_version = handshake.sub_version;
      })

  unfoldable pub server_handshake : Connection C → Connection C
  server_handshake c =
      server_on_bytes (try_decode_client_handshake (take client_handshake_size c.inbound)) c

  server_on_handshake-inbound :
      (v : ClientHandshakeValidation) (c : Connection C)
      → (server_on_handshake v c).inbound ≡ drop client_handshake_size c.inbound
  unfolding server_on_handshake mark_established
  server_on_handshake-inbound ClientHandshakeValidation.accepted c =
      flush_sends-inbound _ ∙ ap (drop client_handshake_size) (queue_bytes-inbound c _)
  server_on_handshake-inbound ClientHandshakeValidation.incompatible_version c =
      flush_sends-inbound _ ∙ ap (drop client_handshake_size) (queue_bytes-inbound c _)
  server_on_handshake-inbound ClientHandshakeValidation.not_transaction_client c =
      mark_dead-inbound _

  erase-feed :
      (c : Connection C) (more : List ℕ)
      → client_handshake_size ≤ length c.inbound
      → erase_handshake (feed more c) ≡ feed more (erase_handshake c)
  erase-feed c more h = rw (drop-append_le client_handshake_size c.inbound more h)

  server_on_handshake-feed :
      (v : ClientHandshakeValidation) (c : Connection C) (more : List ℕ)
      → client_handshake_size ≤ length c.inbound
      → server_on_handshake v (feed more c) ≡ feed more (server_on_handshake v c)
  unfolding server_on_handshake mark_established
  server_on_handshake-feed ClientHandshakeValidation.not_transaction_client c more h =
      rw (drop-append_le client_handshake_size c.inbound more h) (mark_dead-feed _ more)
  server_on_handshake-feed ClientHandshakeValidation.incompatible_version c more h =
      let reject = encode_server_handshake_reply (reply_with (normalize_reject_reason 1)) in
      let closed : Connection C → Connection C =
        λ x. record x { state = ConnectionState.closing } in
      ap (λ x. flush_sends (closed (erase_handshake x))) (queue_bytes-feed c reject more)
      ∙ ap (λ x. flush_sends (closed x))
          (erase-feed (queue_bytes c reject) more (
            subst (λ bytes. client_handshake_size ≤ length bytes)
              (sym (queue_bytes-inbound c reject)) h))
      ∙ flush_sends-feed _ more
  server_on_handshake-feed ClientHandshakeValidation.accepted c more h =
      let reply = encode_server_handshake_reply (reply_with 0) in
      ap (λ x. flush_sends (mark_established (erase_handshake x))) (queue_bytes-feed c reply more)
      ∙ ap (λ x. flush_sends (mark_established x))
          (erase-feed (queue_bytes c reply) more (
            subst (λ bytes. client_handshake_size ≤ length bytes)
              (sym (queue_bytes-inbound c reply)) h))
      ∙ flush_sends-feed _ more

  server_on_bytes-inbound :
      (r : Expected DecodeError ClientHandshake) (c : Connection C)
      → length (server_on_bytes r c).inbound ≤ length c.inbound
  unfolding server_on_bytes
  server_on_bytes-inbound (err e) c = omega (arith, ap (length {A = ℕ}) (mark_dead-inbound c))
  server_on_bytes-inbound (ok handshake) c =
      let named = record c {
        remote_sub_protocol = handshake.sub_protocol;
        remote_version = handshake.sub_version;
      } in
      let v = validate_client_handshake handshake in
      omega (
        arith,
        ap (length {A = ℕ}) (server_on_handshake-inbound v named),
        length-drop client_handshake_size c.inbound,
      )

  server_on_bytes-feed :
      (r : Expected DecodeError ClientHandshake) (c : Connection C) (more : List ℕ)
      → client_handshake_size ≤ length c.inbound
      → server_on_bytes r (feed more c) ≡ feed more (server_on_bytes r c)
  unfolding server_on_bytes
  server_on_bytes-feed (err e) c more h = mark_dead-feed c more
  server_on_bytes-feed (ok handshake) c more h =
      server_on_handshake-feed (validate_client_handshake handshake) _ more h

  -- The server's handshake keeps the base class's contract.
  pub server_handshake-IsHandler : IsHandler client_handshake_size server_handshake
  unfolding server_handshake
  server_handshake-IsHandler = record {
    shrinks = λ c. server_on_bytes-inbound _ c;
    ignores_rest = λ c more h.
        rw (take-append_le client_handshake_size c.inbound more h)
          (server_on_bytes-feed _ c more h);
  }
