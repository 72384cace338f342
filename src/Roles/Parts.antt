-- ===== src/Roles/Parts.antt =====
-- The handshakes of both roles leave the received parts and the size limit alone.
use slopline.Base.{ℕ, List, [], ◌∷◌, Expected, ok, err, Bool-cases, ◌≡◌, refl, inl, inr}
use slopline.Core.Errors.{DecodeError}
use slopline.Protocol.Handshake.{
  ClientHandshake, ServerHandshakeReply, ClientHandshakeValidation, ServerHandshakeReplyValidation,
  validate_client_handshake, validate_server_handshake_reply,
}
use slopline.Net.Connection.{Connection, PartialReceive, mark_established}
use slopline.Net.Connection.Send.{mark_dead, is_dead, queue_bytes, flush_sends}
use slopline.Net.Connection.Flush.{flush_sends_inv}
use slopline.Net.Connection.Policy.{KeepsParts}
use slopline.Roles.Client.{client_handshake, client_on_bytes, client_on_reply}
use slopline.Roles.Server.{server_handshake, server_on_bytes, server_on_handshake}

module _ {C : Type 0} (parts : List PartialReceive) (limit : ℕ) where
  abbrev Has : Connection C → Type 0
  Has c = (c.partial ≡ parts) × (c.max_receive_size ≡ limit)

  mark_dead-Has : (c : Connection C) → Has c → Has (mark_dead c)
  unfolding mark_dead
  mark_dead-Has c h = elim (Bool-cases (is_dead c.state)) [
    | inl already ↦ rw already h
    | inr now ↦ rw now h
  ]

  queue_bytes-Has : (c : Connection C) (bytes : List ℕ) → Has c → Has (queue_bytes c bytes)
  unfolding queue_bytes
  queue_bytes-Has c [] h = h
  queue_bytes-Has c (b ∷ bytes) h = h

  flush_sends-Has : (c : Connection C) → Has c → Has (flush_sends c)
  flush_sends-Has c h =
      flush_sends_inv Has mark_dead-Has (λ answers d p. p) (λ answers d pending rest taken e p. p) c
        h

  client_on_reply-Has :
      (v : ServerHandshakeReplyValidation) (c : Connection C) → Has c → Has (client_on_reply v c)
  unfolding client_on_reply mark_established
  client_on_reply-Has ServerHandshakeReplyValidation.accepted c h = h
  client_on_reply-Has ServerHandshakeReplyValidation.format_unknown c h = mark_dead-Has c h
  client_on_reply-Has ServerHandshakeReplyValidation.version_unknown c h = mark_dead-Has c h

  client_on_bytes-Has :
      (r : Expected DecodeError ServerHandshakeReply) (c : Connection C)
      → Has c
      → Has (client_on_bytes r c)
  unfolding client_on_bytes
  client_on_bytes-Has (err e) c h = mark_dead-Has c h
  client_on_bytes-Has (ok reply) c h =
      client_on_reply-Has (validate_server_handshake_reply reply) _ h

  server_on_handshake-Has :
      (v : ClientHandshakeValidation) (c : Connection C) → Has c → Has (server_on_handshake v c)
  unfolding server_on_handshake mark_established
  server_on_handshake-Has ClientHandshakeValidation.not_transaction_client c h = mark_dead-Has _ h
  server_on_handshake-Has ClientHandshakeValidation.incompatible_version c h =
      flush_sends-Has _ (queue_bytes-Has c _ h)
  server_on_handshake-Has ClientHandshakeValidation.accepted c h =
      flush_sends-Has _ (queue_bytes-Has c _ h)

  server_on_bytes-Has :
      (r : Expected DecodeError ClientHandshake) (c : Connection C)
      → Has c
      → Has (server_on_bytes r c)
  unfolding server_on_bytes
  server_on_bytes-Has (err e) c h = mark_dead-Has c h
  server_on_bytes-Has (ok handshake) c h =
      server_on_handshake-Has (validate_client_handshake handshake) _ h

module _ {C : Type 0} where
  pub client_handshake-KeepsParts : KeepsParts (client_handshake {C = C})
  unfolding client_handshake
  client_handshake-KeepsParts = record {
    parts = λ c. (client_on_bytes-Has c.partial c.max_receive_size _ c (refl, refl)).0;
    limit = λ c. (client_on_bytes-Has c.partial c.max_receive_size _ c (refl, refl)).1;
  }

  pub server_handshake-KeepsParts : KeepsParts (server_handshake {C = C})
  unfolding server_handshake
  server_handshake-KeepsParts = record {
    parts = λ c. (server_on_bytes-Has c.partial c.max_receive_size _ c (refl, refl)).0;
    limit = λ c. (server_on_bytes-Has c.partial c.max_receive_size _ c (refl, refl)).1;
  }
