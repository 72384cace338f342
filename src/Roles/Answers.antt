-- ===== src/Roles/Answers.antt =====
-- What each role does with the other's handshake bytes.
use slopline.Base.{
  subst, ℕ, ◌<◌, ◌^◌, List, [], ◌∷◌, take, drop, take_all, drop_all, Bool-cases, ◌≡◌, ◌≢◌, inl, inr,
  refl, sym, ap, ◌∙◌, arith,
}
use slopline.Protocol.Constants.{
  protocol_tr_tp, protocol_version, client_handshake_size, server_handshake_reply_size,
}
use slopline.Protocol.Handshake.{
  ClientHandshake, IsClientHandshake, encode_client_handshake, encode_server_handshake_reply,
  validate_client_handshake, validate_server_handshake_reply, ServerHandshakeReplyValidation,
}
use slopline.Protocol.Handshake.Policy.{
  length-encode_client_handshake, length-encode_server_handshake_reply,
  try_decode-encode_client_handshake, try_decode-encode_server_handshake_reply,
  validate_server_handshake_reply_iff,
}
use slopline.Net.Connection.{Connection, ConnectionState, Socket, mark_established}
use slopline.Net.Connection.Drain.{settled}
use slopline.Net.Connection.Send.{queue_bytes, flush_sends, mark_dead, is_dead, is_closing}
use slopline.Net.Connection.Flush.{flush_sends_inv}
use slopline.Net.Connection.Outcome.{
  IsTaking, mark_dead-state, flush_sends-answer, queue_bytes_first,
}
use slopline.Roles.Client.{start_client, client_handshake, client_on_bytes, client_on_reply}
use slopline.Roles.Server.{server_handshake, server_on_bytes, server_on_handshake, reply_with}

-- The handshake that `start_client` sends.
abbrev pub handshake_of : ℕ → ℕ → ClientHandshake
handshake_of sub_protocol sub_version = record {
  protocol = protocol_tr_tp;
  sub_protocol = sub_protocol;
  version = protocol_version;
  sub_version = sub_version;
}

module _ {C : Type 0} where
  -- A server that has got a handshake's bytes decides as the policy says.
  pub server_handshake_lem :
      (c : Connection C) (handshake : ClientHandshake)
      → IsClientHandshake handshake
      → c.inbound ≡ encode_client_handshake handshake
      → server_handshake c
        ≡ server_on_handshake (validate_client_handshake handshake) (record c {
          remote_sub_protocol = handshake.sub_protocol;
          remote_version = handshake.sub_version;
        })
  unfolding server_handshake server_on_bytes
  server_handshake_lem c handshake fits e =
      let whole : take client_handshake_size c.inbound ≡ encode_client_handshake handshake =
        ap (take client_handshake_size) e
        ∙ take_all client_handshake_size (encode_client_handshake handshake)
            (omega (arith, length-encode_client_handshake handshake)) in
      rw (whole, try_decode-encode_client_handshake handshake fits) refl

  client_handshake_lem :
      (c : Connection C) (error : ℕ)
      → error < 2 ^ 32
      → c.inbound ≡ encode_server_handshake_reply (reply_with error)
      → client_handshake c
        ≡ client_on_reply
            (validate_server_handshake_reply (reply_with error))
            (record c { inbound = [] })
  unfolding client_handshake client_on_bytes
  client_handshake_lem c error fits e =
      let bytes = encode_server_handshake_reply (reply_with error) in
      let size = length-encode_server_handshake_reply (reply_with error) in
      let whole : take server_handshake_reply_size c.inbound ≡ bytes =
        ap (take server_handshake_reply_size) e
        ∙ take_all server_handshake_reply_size bytes (omega (arith, size)) in
      let taken : drop server_handshake_reply_size c.inbound ≡ [] =
        ap (drop server_handshake_reply_size) e
        ∙ drop_all server_handshake_reply_size bytes (omega (arith, size)) in
      rw
        (
          whole,
          try_decode-encode_server_handshake_reply (reply_with error)
              (record { protocol_fits = omega arith; error_fits = fits }),
          taken,
        )
        refl

  pub start_client-sent :
      (c : Connection C) (socket : Socket) (sub_protocol sub_version : ℕ)
      → c.send_queue ≡ []
      → socket.sent ≡ []
      → IsTaking client_handshake_size socket
      → let started = start_client c socket sub_protocol sub_version in
        (started.send_queue ≡ [])
        × (started.socket.sent ≡ encode_client_handshake (handshake_of sub_protocol sub_version))
        × (started.state ≡ ConnectionState.awaiting_handshake_reply)
  unfolding start_client is_closing
  start_client-sent c socket sub_protocol sub_version unused fresh taking =
      let greeting = encode_client_handshake (handshake_of sub_protocol sub_version) in
      let size = length-encode_client_handshake (handshake_of sub_protocol sub_version) in
      let started = record c {
        socket = socket;
        state = ConnectionState.awaiting_handshake_reply;
      } in
      let first = queue_bytes_first started greeting unused (omega (arith, size)) in
      let (dry, sent, state) =
        flush_sends-answer (queue_bytes started greeting) socket greeting
          (ap (λ (d : Connection C). d.socket) first)
          (ap (λ (d : Connection C). d.send_queue) first) (omega (arith, size)) fresh
          (subst (λ n. IsTaking n socket) (sym size) taking) in
      (dry, sent, state ∙ ap (λ (d : Connection C). settled d.state) first)

  -- The members that name the client are left alone.
  abbrev pub Names : ℕ → ℕ → Connection C → Type 0
  Names sub_protocol version c =
      (c.remote_sub_protocol ≡ sub_protocol) × (c.remote_version ≡ version)

  mark_dead-Names : (p v : ℕ) (c : Connection C) → Names p v c → Names p v (mark_dead c)
  unfolding mark_dead
  mark_dead-Names p v c h = elim (Bool-cases (is_dead c.state)) [
    | inl already ↦ rw already h
    | inr now ↦ rw now h
  ]

  pub flush_sends-Names : (p v : ℕ) (c : Connection C) → Names p v c → Names p v (flush_sends c)
  flush_sends-Names p v c h =
      flush_sends_inv (Names p v) (mark_dead-Names p v) (λ answers d q. q)
        (λ answers d pending rest taken f q. q) c h

  pub queue_bytes-Names :
      (p v : ℕ) (c : Connection C) (bytes : List ℕ) → Names p v c → Names p v (queue_bytes c bytes)
  unfolding queue_bytes
  queue_bytes-Names p v c [] h = h
  queue_bytes-Names p v c (b ∷ bytes) h = h

  client_on_reply-refused :
      (v : ServerHandshakeReplyValidation) (c : Connection C)
      → v ≢ ServerHandshakeReplyValidation.accepted
      → (client_on_reply v c).state ≡ ConnectionState.dead
  unfolding client_on_reply
  client_on_reply-refused ServerHandshakeReplyValidation.accepted c h = absurd (h refl)
  client_on_reply-refused ServerHandshakeReplyValidation.format_unknown c h = mark_dead-state c
  client_on_reply-refused ServerHandshakeReplyValidation.version_unknown c h = mark_dead-state c

  -- The client's side of an answer: error 0 establishes, any other ends the connection.
  pub client_answered :
      (answered : Connection C) (error : ℕ)
      → error < 2 ^ 32
      → answered.inbound ≡ encode_server_handshake_reply (reply_with error)
      → ((error ≡ 0)
          → client_handshake answered ≡ mark_established (record answered { inbound = [] }))
        × ((error ≢ 0) → (client_handshake answered).state ≡ ConnectionState.dead)
  client_answered answered error fits e =
      let step = client_handshake_lem answered error fits e in
      let decided = validate_server_handshake_reply_iff (reply_with error) in
      (
        λ zero_error.
            step
            ∙ unfold client_on_reply in
              ap (λ v. client_on_reply v (record answered { inbound = [] }))
                (decided.1 (inl refl, zero_error)),
        λ other.
            ap (λ (d : Connection C). d.state) step
            ∙ client_on_reply-refused (validate_server_handshake_reply (reply_with error)) _
                (λ accepted. other (decided.0 accepted).1),
      )
