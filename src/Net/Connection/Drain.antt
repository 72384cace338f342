-- ===== src/Net/Connection/Drain.antt =====
-- src/hotline/net/src/connection.cpp, `flush_sends`: with a socket that takes bytes, the queue runs dry.
use slopline.Base.{
  ℕ, suc, ◌+◌, ◌-◌, ◌≤◌, ◌<◌, min, true, false, List, [], ◌∷◌, ◌++◌, All, Expected, ok, err, length,
  length-append, length-drop, take, drop, leb, if◌then◌else◌, Bool-cases, inl, inr, append-nil, ◌≡◌,
  refl, sym, ap, ◌∙◌, subst, arith,
}
use slopline.Net.Connection.{Connection, ConnectionState, Socket, NetError, PendingSend}
use slopline.Net.Connection.Send.{
  is_dead, is_closing, can_send, mark_dead, flushed, flush_loop, flush_sends, on_answer, on_queue,
  on_blocked, advance, answered,
}
use slopline.Net.Connection.Flush.{queued, flush_sends-fifo}

-- An answer of `send` that takes a byte or more.
abbrev pub Takes : Expected NetError ℕ → Type 0
Takes (ok n) = 0 < n
Takes (err x) = ⊥

-- An entry with bytes left.
abbrev pub IsPending : PendingSend → Type 0
IsPending pending = pending.offset < length pending.bytes

advance-lem :
    (pending : PendingSend) (rest : List PendingSend) (n : ℕ)
    → IsPending pending
    → All IsPending rest
    → 0 < n
    → let taken = min n (length (drop pending.offset pending.bytes)) in
      All IsPending (advance pending rest taken)
      × (length (queued (advance pending rest taken)) < length (queued (pending ∷ rest)))
unfolding advance
advance-lem pending rest n h all positive =
    let left = drop pending.offset pending.bytes in
    let taken : ℕ = min n (length left) in
    let size : length left ≡ length pending.bytes - pending.offset =
      length-drop pending.offset pending.bytes in
    let before = length-append left (queued rest) in
    elim (Bool-cases (leb (length pending.bytes) (pending.offset + taken))) [
      | inl last ↦ rw last (all, omega arith)
      | inr more ↦
          let next = drop (pending.offset + taken) pending.bytes in
          let some_left : pending.offset + taken < length pending.bytes = ground (arith, more) in
          rw more (
            (some_left, all),
            omega (
              arith,
              length-append next (queued rest),
              length-drop (pending.offset + taken) pending.bytes,
            ),
          )
    ]

can_send_open :
    (socket : Socket) (xs : List ℕ)
    → socket.is_open ≡ true
    → 0 < length xs
    → can_send socket xs ≡ true
unfolding can_send
can_send_open socket [] open_socket h = absurd (omega arith)
can_send_open socket (x ∷ xs) open_socket h = rw open_socket refl

no_queue : (queue : List PendingSend) → All IsPending queue → length (queued queue) ≤ 0 → queue ≡ []
no_queue [] all h = refl
no_queue (pending ∷ rest) (one, all) h = absurd (
    omega (
      arith,
      length-append (drop pending.offset pending.bytes) (queued rest),
      length-drop pending.offset pending.bytes,
    ))

closing-live : (state : ConnectionState) → is_closing state ≡ true → is_dead state ≡ false
unfolding is_closing is_dead
closing-live ConnectionState.closing h = refl
closing-live ConnectionState.idle h = refl
closing-live ConnectionState.awaiting_handshake_reply h = refl
closing-live ConnectionState.awaiting_handshake h = refl
closing-live ConnectionState.established h = refl
closing-live ConnectionState.dead h = cc h

-- The state in which a connection is left with nothing to send.
abbrev pub settled : ConnectionState → ConnectionState
settled state = if is_closing state then ConnectionState.dead else state

module _ {C : Type 0} where
  -- A live socket that has bytes to take, and answers for all of them.
  record IsReady (answers : List (Expected NetError ℕ)) (state : ConnectionState) (d : Connection C)
      : Type 0 where
    same_state : d.state ≡ state
    is_open : d.socket.is_open ≡ true
    pending : All IsPending d.send_queue
    taking : All Takes answers
    enough : length (queued d.send_queue) ≤ length answers

  abbrev Drained : ConnectionState → Connection C → Type 0
  Drained state end = (end.send_queue ≡ []) × (end.state ≡ settled state)

  flushed-Drained :
      (state : ConnectionState) (d : Connection C)
      → d.send_queue ≡ []
      → d.state ≡ state
      → Drained state (flushed d)
  unfolding flushed mark_dead
  flushed-Drained state d e s = elim (Bool-cases (is_closing state)) [
    | inl closing ↦
        let over : is_closing d.state ≡ true = ap is_closing s ∙ closing in
        rw (over, closing, closing-live d.state over) (e, refl)
    | inr live ↦
        let on : is_closing d.state ≡ false = ap is_closing s ∙ live in rw (on, live) (e, s)
  ]

  on_queue-Drained :
      (queue : List PendingSend) (answer : Expected NetError ℕ)
      (answers : List (Expected NetError ℕ)) (next : Connection C → Connection C)
      (state : ConnectionState) (d : Connection C)
      → ((t : Connection C) → IsReady answers state t → Drained state (next t))
      → IsReady (answer ∷ answers) state d
      → d.send_queue ≡ queue
      → Drained state (on_queue queue answer answers next d)
  unfolding on_queue on_answer
  on_queue-Drained [] answer answers next state d ends r e = flushed-Drained state d e r.same_state
  on_queue-Drained (pending ∷ rest) (err x) answers next state d ends r e = absurd (r.taking.0)
  on_queue-Drained (pending ∷ rest) (ok n) answers next state d ends r e =
      let left = drop pending.offset pending.bytes in
      let (one, others) = subst (All IsPending) e r.pending in
      let can : can_send d.socket left ≡ true =
        can_send_open d.socket left r.is_open
          (omega (arith, length-drop pending.offset pending.bytes)) in
      let taken : ℕ = min n (length left) in
      let (still, fewer) = advance-lem pending rest n one others r.taking.0 in
      let all : length (queued (pending ∷ rest)) ≤ suc (length answers) =
        subst (λ q. length (queued q) ≤ suc (length answers)) e r.enough in
      rw can (
        ends
          (record (answered answers (take taken left) d) {
            send_queue = advance pending rest taken;
          })
          (record {
            same_state = r.same_state;
            is_open = r.is_open;
            pending = still;
            taking = r.taking.1;
            enough = omega arith;
          }))

  flush_loop-Drained :
      (answers : List (Expected NetError ℕ)) (state : ConnectionState) (d : Connection C)
      → IsReady answers state d
      → Drained state (flush_loop answers d)
  unfolding flush_loop on_blocked
  flush_loop-Drained [] state d r =
      let dry = no_queue d.send_queue r.pending r.enough in
      subst (λ q. Drained state (on_blocked q d)) (sym dry)
        (flushed-Drained state d dry r.same_state)
  flush_loop-Drained (answer ∷ answers) state d r =
      on_queue-Drained d.send_queue answer answers (flush_loop answers) state d
        (λ t. flush_loop-Drained answers state t) r refl

  -- An open socket that takes a byte or more at each call, with an answer for every byte that is queued:
  -- after `flush_sends` nothing is queued, the socket has taken all that was queued behind what it had
  -- taken before, and the connection is as it was, or dead if it was closing.
  pub flush_sends-drained :
      (c : Connection C)
      → c.socket.is_open ≡ true
      → All IsPending c.send_queue
      → All Takes c.socket.answers
      → length (queued c.send_queue) ≤ length c.socket.answers
      → ((flush_sends c).send_queue ≡ [])
        × ((flush_sends c).socket.sent ≡ c.socket.sent ++ queued c.send_queue)
        × ((flush_sends c).state ≡ settled c.state)
  unfolding flush_sends
  flush_sends-drained c is_open pending taking enough =
      let (dry, state) = flush_loop-Drained c.socket.answers c.state c (record {
        same_state = refl;
        is_open = is_open;
        pending = pending;
        taking = taking;
        enough = enough;
      }) in
      (
        dry,
        sym (append-nil (flush_sends c).socket.sent)
            ∙ ap (λ q. (flush_sends c).socket.sent ++ queued q) (sym dry)
            ∙ flush_sends-fifo c,
        state,
      )
