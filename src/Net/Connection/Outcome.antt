-- ===== src/Net/Connection/Outcome.antt =====
-- src/hotline/net/src/connection.cpp: how a connection stands after `flush_sends`, and an answer that
-- goes out whole.
use slopline.Base.{
  All, false, length, subst, append-nil, ◌≤◌, ℕ, ◌<◌, true, List, [], ◌∷◌, ◌++◌, Bool-cases, ◌≡◌,
  ◌⊎◌, inl, inr, refl, sym, ap, ap₂, ◌∙◌, arith,
}
use slopline.Net.Connection.{Connection, ConnectionState, Socket, Event, on_closed}
use slopline.Net.Connection.Drain.{Takes, IsPending, settled, flush_sends-drained}
use slopline.Net.Connection.Send.{queue_bytes, flush_sends, mark_dead, is_dead}
use slopline.Net.Connection.Flush.{queued, flush_sends_inv}

is_dead-eq : (state : ConnectionState) → is_dead state ≡ true → state ≡ ConnectionState.dead
unfolding is_dead
is_dead-eq ConnectionState.dead e = refl
is_dead-eq ConnectionState.idle e = cc
is_dead-eq ConnectionState.awaiting_handshake_reply e = cc
is_dead-eq ConnectionState.awaiting_handshake e = cc
is_dead-eq ConnectionState.established e = cc
is_dead-eq ConnectionState.closing e = cc

-- An open socket that takes a byte or more at each call, at least `size` times.
pub record IsTaking (size : ℕ) (socket : Socket) : Type 0 where
  pub is_open : socket.is_open ≡ true
  pub takes : All Takes socket.answers
  pub enough : size ≤ length socket.answers

module _ {C : Type 0} where
  pub mark_dead-state : (c : Connection C) → (mark_dead c).state ≡ ConnectionState.dead
  unfolding mark_dead
  mark_dead-state c = elim (Bool-cases (is_dead c.state)) [
    | inl already ↦ rw already (is_dead-eq c.state already)
    | inr now ↦ rw now
  ]

  -- A connection in this state with these callbacks made, or that has died since.
  abbrev Stays : ConnectionState → List Event → Connection C → Type 0
  Stays state events c =
      ((c.state ≡ state) × (c.events ≡ events))
      ⊎ ((c.state ≡ ConnectionState.dead) × (c.events ≡ on_closed ∷ events))

  mark_dead-Stays :
      (state : ConnectionState) (events : List Event) (c : Connection C)
      → is_dead state ≡ false
      → Stays state events c
      → Stays state events (mark_dead c)
  unfolding mark_dead
  mark_dead-Stays state events c live (inl (same, quiet)) =
      rw (ap is_dead same ∙ live) (inr (refl, ap (◌∷◌ on_closed) quiet))
  mark_dead-Stays state events c live (inr (dead, closed)) =
      let over : is_dead c.state ≡ true = ap is_dead dead ∙ unfold is_dead in refl in
      rw over (inr (dead, closed))

  flush_sends-Stays :
      (state : ConnectionState) (c : Connection C)
      → is_dead state ≡ false
      → c.state ≡ state
      → Stays state c.events (flush_sends c)
  flush_sends-Stays state c live e =
      flush_sends_inv (Stays state c.events) (λ d. mark_dead-Stays state c.events d live)
        (λ answers d p. p) (λ answers d pending rest taken f p. p) c (inl (e, refl))

  -- A queue of one entry on a socket that has taken nothing and takes bytes goes out whole.
  pub flush_sends-answer :
      (c : Connection C) (socket : Socket) (answer : List ℕ)
      → c.socket ≡ socket
      → c.send_queue ≡ record { bytes = answer; offset = 0 } ∷ []
      → 0 < length answer
      → socket.sent ≡ []
      → IsTaking (length answer) socket
      → ((flush_sends c).send_queue ≡ [])
        × ((flush_sends c).socket.sent ≡ answer)
        × ((flush_sends c).state ≡ settled c.state)
  flush_sends-answer c socket answer same only some_bytes fresh taking =
      let whole : queued c.send_queue ≡ answer = ap queued only ∙ append-nil answer in
      let ready = subst (IsTaking (length answer)) (sym same) taking in
      let (dry, sent, state) =
        flush_sends-drained c ready.is_open (subst (All IsPending) (sym only) (some_bytes, tt))
          ready.takes
          (subst (λ bytes. length bytes ≤ length c.socket.answers) (sym whole) ready.enough) in
      (dry, sent ∙ ap₂ ◌++◌ (ap (λ (t : Socket). t.sent) same ∙ fresh) whole, state)

  -- The first bytes that are queued.
  pub queue_bytes_first :
      (c : Connection C) (bytes : List ℕ)
      → c.send_queue ≡ []
      → 0 < length bytes
      → queue_bytes c bytes ≡ record c { send_queue = record { bytes = bytes; offset = 0 } ∷ [] }
  unfolding queue_bytes
  queue_bytes_first c [] unused h = absurd (omega arith)
  queue_bytes_first c (b ∷ bytes) unused h =
      ap
        (λ queue. record c {
          send_queue = queue ++ (record { bytes = b ∷ bytes; offset = 0 } ∷ []);
        })
        unused

  -- The state and the callbacks of a connection that is not closing, and of one that is.
  pub flush_sends-goes_on :
      (c : Connection C)
      → (flush_sends c).state ≡ ConnectionState.established
      → c.state ≡ ConnectionState.established
      → (flush_sends c).events ≡ c.events
  unfolding is_dead
  flush_sends-goes_on c after before =
      elim (flush_sends-Stays ConnectionState.established c refl before) [
        | inl (same, quiet) ↦ quiet
        | inr (dead, closed) ↦ absurd (cc (sym after ∙ dead))
      ]

  pub flush_sends-ends :
      (c : Connection C)
      → (flush_sends c).state ≡ ConnectionState.dead
      → c.state ≡ ConnectionState.closing
      → (flush_sends c).events ≡ on_closed ∷ c.events
  unfolding is_dead
  flush_sends-ends c after before = elim (flush_sends-Stays ConnectionState.closing c refl before) [
    | inl (same, quiet) ↦ absurd (cc (sym after ∙ same))
    | inr (dead, closed) ↦ closed
  ]
