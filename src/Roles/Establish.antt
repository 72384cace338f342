-- ===== src/Roles/Establish.antt =====
-- Both roles together: the handshake of a client and a server over one stream.
use slopline.Base.{
  ℕ, ◌<◌, ◌^◌, [], ◌∷◌, drop, drop_all, ◌≡◌, ◌≢◌, ◌⊎◌, inl, refl, sym, ap, subst, ◌∙◌, arith,
}
use slopline.Protocol.Constants.{
  protocol_tr_tp, protocol_nick, protocol_version, client_handshake_size,
  server_handshake_reply_size,
}
use slopline.Protocol.Handshake.{
  ClientHandshake, IsClientHandshake, ClientHandshakeValidation, encode_client_handshake,
  encode_server_handshake_reply, normalize_reject_reason, validate_client_handshake,
}
use slopline.Protocol.Handshake.Policy.{
  validate_client_handshake_iff, length-encode_client_handshake,
  length-encode_server_handshake_reply,
}
use slopline.Net.Connection.{
  Connection, ConnectionState, Socket, on_established, on_closed, mark_established,
}
use slopline.Net.Connection.Send.{queue_bytes, flush_sends, is_closing}
use slopline.Net.Connection.Flush.{flush_sends-inbound, queue_bytes-inbound}
use slopline.Roles.Client.{start_client, client_handshake}
use slopline.Roles.Server.{server_handshake, server_on_handshake, reply_with, erase_handshake}
use slopline.Net.Connection.Outcome.{
  IsTaking, flush_sends-answer, flush_sends-goes_on, flush_sends-ends, queue_bytes_first,
}
use slopline.Roles.Answers.{
  handshake_of, server_handshake_lem, start_client-sent, flush_sends-Names, queue_bytes-Names,
  client_answered,
}

module _ {C : Type 0} where
  -- Both sockets are open, have taken nothing, and take a byte or more at each call, often enough for
  -- the message of their side; nothing is queued before, and the client's two words fit in their
  -- members. The client sends its whole handshake at its start and waits for the answer. A server that
  -- gets the bytes that the client's socket has taken is established, with one call of
  -- `on_established`, has taken its whole input, knows what the client is and has sent its whole
  -- answer. A client that gets the bytes that the server's socket has taken is established too, with
  -- one call of `on_established`, and has taken its whole input.
  pub establish :
      (c s answered : Connection C) (socket : Socket) (sub_protocol sub_version : ℕ)
      → sub_protocol < 2 ^ 32
      → sub_version < 2 ^ 16
      → c.send_queue ≡ []
      → socket.sent ≡ []
      → IsTaking client_handshake_size socket
      → s.send_queue ≡ []
      → s.socket.sent ≡ []
      → IsTaking server_handshake_reply_size s.socket
      → s.inbound ≡ (start_client c socket sub_protocol sub_version).socket.sent
      → answered.inbound ≡ (server_handshake s).socket.sent
      → let started = start_client c socket sub_protocol sub_version in
        let server = server_handshake s in
        (started.state ≡ ConnectionState.awaiting_handshake_reply)
        × (started.send_queue ≡ [])
        × (server.state ≡ ConnectionState.established)
        × (server.events ≡ on_established ∷ s.events)
        × (server.send_queue ≡ [])
        × (server.inbound ≡ [])
        × (server.remote_sub_protocol ≡ sub_protocol)
        × (server.remote_version ≡ sub_version)
        × (client_handshake answered ≡ record answered {
          state = ConnectionState.established;
          inbound = [];
          events = on_established ∷ answered.events;
        })
  unfolding mark_established is_closing
  establish c s answered socket sub_protocol sub_version sub_protocol_fits sub_version_fits unused
        fresh taking s_unused s_fresh s_taking arrived got =
      let handshake = handshake_of sub_protocol sub_version in
      let fits : IsClientHandshake handshake = record {
        protocol_fits = omega arith;
        sub_protocol_fits = sub_protocol_fits;
        version_fits = omega arith;
        sub_version_fits = sub_version_fits;
      } in
      let (client_dry, client_sent, client_state) =
        start_client-sent c socket sub_protocol sub_version unused fresh taking in
      let greeting : s.inbound ≡ encode_client_handshake handshake = arrived ∙ client_sent in
      let accepted : validate_client_handshake handshake ≡ ClientHandshakeValidation.accepted =
        (validate_client_handshake_iff handshake).0.1 (inl refl, refl) in
      let known = record s { remote_sub_protocol = sub_protocol; remote_version = sub_version } in
      let reply = encode_server_handshake_reply (reply_with 0) in
      let size = length-encode_server_handshake_reply (reply_with 0) in
      let end = mark_established (erase_handshake (queue_bytes known reply)) in
      let first = queue_bytes_first known reply s_unused (omega (arith, size)) in
      let step : server_handshake s ≡ flush_sends end =
        server_handshake_lem s handshake fits greeting
        ∙ unfold server_on_handshake in ap (λ v. server_on_handshake v known) accepted in
      let (dry, sent, state) =
        flush_sends-answer end s.socket reply (ap (λ (d : Connection C). d.socket) first)
          (ap (λ (d : Connection C). d.send_queue) first) (omega (arith, size)) s_fresh
          (subst (λ n. IsTaking n s.socket) (sym size) s_taking) in
      let (sub_protocol_known, version_known) =
        flush_sends-Names sub_protocol sub_version end
          (queue_bytes-Names sub_protocol sub_version known reply (refl, refl)) in
      let taken : (flush_sends end).inbound ≡ [] =
        flush_sends-inbound end
        ∙ ap (drop client_handshake_size) (queue_bytes-inbound known reply ∙ greeting)
        ∙ drop_all client_handshake_size (encode_client_handshake handshake)
            (omega (arith, length-encode_client_handshake handshake)) in
      (
        client_state,
        client_dry,
        ap (λ (d : Connection C). d.state) step ∙ state,
        ap (λ (d : Connection C). d.events) step
            ∙ flush_sends-goes_on end state refl
            ∙ ap (λ (d : Connection C). on_established ∷ d.events) first,
        ap (λ (d : Connection C). d.send_queue) step ∙ dry,
        ap (λ (d : Connection C). d.inbound) step ∙ taken,
        ap (λ (d : Connection C). d.remote_sub_protocol) step ∙ sub_protocol_known,
        ap (λ (d : Connection C). d.remote_version) step ∙ version_known,
        (client_answered answered 0 (omega arith)
              (got ∙ ap (λ (d : Connection C). d.socket.sent) step ∙ sent)).0
            refl,
      )

  -- A server that gets a handshake with a known tag and a version other than 1, on an open socket that
  -- has taken nothing and takes a byte or more at each call, often enough for the answer: it sends
  -- the whole answer with the reason 1 and is dead, with a call of `on_closed` and none of
  -- `on_established`. A client that gets the bytes that the server's socket has taken is dead.
  pub establish_refused :
      (s answered : Connection C) (handshake : ClientHandshake)
      → IsClientHandshake handshake
      → (handshake.protocol ≡ protocol_tr_tp) ⊎ (handshake.protocol ≡ protocol_nick)
      → handshake.version ≢ protocol_version
      → s.send_queue ≡ []
      → s.socket.sent ≡ []
      → IsTaking server_handshake_reply_size s.socket
      → s.inbound ≡ encode_client_handshake handshake
      → answered.inbound ≡ (server_handshake s).socket.sent
      → let server = server_handshake s in
        (server.socket.sent ≡ encode_server_handshake_reply (reply_with 1))
        × (server.send_queue ≡ [])
        × (server.state ≡ ConnectionState.dead)
        × (server.events ≡ on_closed ∷ s.events)
        × ((client_handshake answered).state ≡ ConnectionState.dead)
  unfolding is_closing
  establish_refused s answered handshake fits tag other s_unused s_fresh s_taking arrived got =
      let refused = (validate_client_handshake_iff handshake).1.1 (tag, other) in
      let known = record s {
        remote_sub_protocol = handshake.sub_protocol;
        remote_version = handshake.sub_version;
      } in
      let reply = encode_server_handshake_reply (reply_with 1) in
      let size = length-encode_server_handshake_reply (reply_with 1) in
      let end = record (erase_handshake (queue_bytes known reply)) {
        state = ConnectionState.closing;
      } in
      let first = queue_bytes_first known reply s_unused (omega (arith, size)) in
      let step : server_handshake s ≡ flush_sends end =
        server_handshake_lem s handshake fits arrived
        ∙ unfold server_on_handshake normalize_reject_reason in
          ap (λ v. server_on_handshake v known) refused in
      let (dry, sent, state) =
        flush_sends-answer end s.socket reply (ap (λ (d : Connection C). d.socket) first)
          (ap (λ (d : Connection C). d.send_queue) first) (omega (arith, size)) s_fresh
          (subst (λ n. IsTaking n s.socket) (sym size) s_taking) in
      let out = ap (λ (d : Connection C). d.socket.sent) step ∙ sent in
      (
        out,
        ap (λ (d : Connection C). d.send_queue) step ∙ dry,
        ap (λ (d : Connection C). d.state) step ∙ state,
        ap (λ (d : Connection C). d.events) step
            ∙ flush_sends-ends end state refl
            ∙ ap (λ (d : Connection C). on_closed ∷ d.events) first,
        (client_answered answered 1 (omega arith) (got ∙ out)).1 (λ e. absurd (omega arith)),
      )
