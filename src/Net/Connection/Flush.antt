-- ===== src/Net/Connection/Flush.antt =====
-- The send queue: what `flush_sends` leaves alone, and what it hands to the socket.
use slopline.Base.{
  ℕ, ◌+◌, List, [], ◌∷◌, ◌++◌, Expected, ok, err, length, take, drop, leb, Bool-cases, inl, inr,
  leb→le, drop-drop, drop_all, take-append-drop, append_assoc, append-nil, ◌≡◌, refl, sym, ap, ◌∙◌,
  arith,
}
use slopline.Net.Connection.{Connection, NetError, PendingSend}
use slopline.Net.Connection.Send.{
  is_dead, is_closing, mark_dead, queue_bytes, flushed, flush_loop, flush_sends, on_answer,
  on_queue, on_blocked, can_send, advance, answered,
}
use slopline.Net.Connection.Parsing.{feed, mark_dead-feed, mark_dead-inbound}

module _ {C : Type 0} where
  flushed-inbound : (c : Connection C) → (flushed c).inbound ≡ c.inbound
  unfolding flushed mark_dead
  flushed-inbound c = ground arith

  flushed-feed : (c : Connection C) (more : List ℕ) → flushed (feed more c) ≡ feed more (flushed c)
  unfolding flushed mark_dead
  flushed-feed c more = ground arith

  pub queue_bytes-inbound :
      (c : Connection C) (bytes : List ℕ) → (queue_bytes c bytes).inbound ≡ c.inbound
  unfolding queue_bytes
  queue_bytes-inbound c [] = refl
  queue_bytes-inbound c (b ∷ bytes) = refl

  pub queue_bytes-feed :
      (c : Connection C) (bytes more : List ℕ)
      → queue_bytes (feed more c) bytes ≡ feed more (queue_bytes c bytes)
  unfolding queue_bytes
  queue_bytes-feed c [] more = refl
  queue_bytes-feed c (b ∷ bytes) more = refl

  on_answer-feed :
      (answer : Expected NetError ℕ) (answers : List (Expected NetError ℕ)) (pending : PendingSend)
      (rest : List PendingSend) (next : Connection C → Connection C) (c : Connection C)
      (more : List ℕ)
      → ((d : Connection C) → next (feed more d) ≡ feed more (next d))
      → on_answer answer answers pending rest next (feed more c)
        ≡ feed more (on_answer answer answers pending rest next c)
  unfolding on_answer
  on_answer-feed (err NetError.would_block) answers pending rest next c more h = refl
  on_answer-feed (err NetError.interrupted) answers pending rest next c more h = h _
  on_answer-feed (err NetError.connection_closed) answers pending rest next c more h =
      mark_dead-feed _ more
  on_answer-feed (err _) answers pending rest next c more h = mark_dead-feed _ more
  on_answer-feed (ok n) answers pending rest next c more h = h _

  on_queue-feed :
      (queue : List PendingSend) (answer : Expected NetError ℕ)
      (answers : List (Expected NetError ℕ)) (next : Connection C → Connection C) (c : Connection C)
      (more : List ℕ)
      → ((d : Connection C) → next (feed more d) ≡ feed more (next d))
      → on_queue queue answer answers next (feed more c)
        ≡ feed more (on_queue queue answer answers next c)
  unfolding on_queue
  on_queue-feed [] answer answers next c more h = flushed-feed c more
  on_queue-feed (pending ∷ rest) answer answers next c more h =
      elim (Bool-cases (can_send c.socket (drop pending.offset pending.bytes))) [
        | inl can ↦ rw can (on_answer-feed answer answers pending rest next c more h)
        | inr cannot ↦ rw cannot (mark_dead-feed c more)
      ]

  on_blocked-feed :
      (queue : List PendingSend) (c : Connection C) (more : List ℕ)
      → on_blocked queue (feed more c) ≡ feed more (on_blocked queue c)
  unfolding on_blocked
  on_blocked-feed [] c more = flushed-feed c more
  on_blocked-feed (pending ∷ rest) c more =
      elim (Bool-cases (can_send c.socket (drop pending.offset pending.bytes))) [
        | inl can ↦ rw can
        | inr cannot ↦ rw cannot (mark_dead-feed c more)
      ]

  flush_loop-feed :
      (answers : List (Expected NetError ℕ)) (c : Connection C) (more : List ℕ)
      → flush_loop answers (feed more c) ≡ feed more (flush_loop answers c)
  unfolding flush_loop
  flush_loop-feed [] c more = on_blocked-feed c.send_queue c more
  flush_loop-feed (answer ∷ answers) c more =
      on_queue-feed c.send_queue answer answers (flush_loop answers) c more
        (λ d. flush_loop-feed answers d more)

  pub flush_sends-feed :
      (c : Connection C) (more : List ℕ) → flush_sends (feed more c) ≡ feed more (flush_sends c)
  unfolding flush_sends
  flush_sends-feed c more = flush_loop-feed c.socket.answers c more

-- What is still to go out.
abbrev pub queued : List PendingSend → List ℕ
queued [] = []
queued (pending ∷ rest) = drop pending.offset pending.bytes ++ queued rest

-- The bytes that a front entry has left are those taken and those that `advance` leaves.
advance-queued :
    (pending : PendingSend) (rest : List PendingSend) (taken : ℕ)
    → take taken (drop pending.offset pending.bytes) ++ queued (advance pending rest taken)
      ≡ queued (pending ∷ rest)
unfolding advance
advance-queued pending rest taken =
    let left = drop pending.offset pending.bytes in
    let cut = drop-drop pending.offset taken pending.bytes in
    elim (Bool-cases (leb (length pending.bytes) (pending.offset + taken))) [
      | inl last ↦
          let none_left : drop taken left ≡ [] = cut ∙ drop_all _ pending.bytes (leb→le _ _ last) in
          rw last (ap (◌++◌ (take taken left)) (ap (λ x. x ++ queued rest) (sym none_left)))
          ∙ sym (append_assoc (take taken left) (drop taken left) (queued rest))
          ∙ ap (λ x. x ++ queued rest) (take-append-drop taken left)
      | inr more ↦ rw more (
          ap (λ x. take taken left ++ (x ++ queued rest)) (sym cut)
          ∙ sym (append_assoc (take taken left) (drop taken left) (queued rest))
          ∙ ap (λ x. x ++ queued rest) (take-append-drop taken left))
    ]

-- What every step of `flush_sends` keeps, it keeps.
module _ {C : Type 0} (P : Connection C → Type 0)
    (dies : (c : Connection C) → P c → P (mark_dead c))
    (waits : (answers : List (Expected NetError ℕ)) (c : Connection C)
      → P c
      → P (answered answers [] c))
    (sends : (answers : List (Expected NetError ℕ)) (c : Connection C) (pending : PendingSend)
        (rest : List PendingSend) (taken : ℕ)
      → c.send_queue ≡ pending ∷ rest
      → P c
      → P (record (answered answers (take taken (drop pending.offset pending.bytes)) c) {
        send_queue = advance pending rest taken;
      })) where
  flushed_inv : (c : Connection C) → P c → P (flushed c)
  unfolding flushed
  flushed_inv c p = elim (Bool-cases (is_closing c.state)) [
    | inl over ↦ rw over (dies c p)
    | inr live ↦ rw live p
  ]

  on_answer_inv :
      (answer : Expected NetError ℕ) (answers : List (Expected NetError ℕ)) (pending : PendingSend)
      (rest : List PendingSend) (next : Connection C → Connection C) (c : Connection C)
      → ((d : Connection C) → P d → P (next d))
      → c.send_queue ≡ pending ∷ rest
      → P c
      → P (on_answer answer answers pending rest next c)
  unfolding on_answer
  on_answer_inv (err NetError.would_block) answers pending rest next c h e p = waits answers c p
  on_answer_inv (err NetError.interrupted) answers pending rest next c h e p =
      h _ (waits answers c p)
  on_answer_inv (err NetError.connection_closed) answers pending rest next c h e p =
      dies _ (waits answers c p)
  on_answer_inv (err _) answers pending rest next c h e p = dies _ (waits answers c p)
  on_answer_inv (ok n) answers pending rest next c h e p = h _ (sends answers c pending rest _ e p)

  on_queue_inv :
      (queue : List PendingSend) (answer : Expected NetError ℕ)
      (answers : List (Expected NetError ℕ)) (next : Connection C → Connection C) (c : Connection C)
      → ((d : Connection C) → P d → P (next d))
      → c.send_queue ≡ queue
      → P c
      → P (on_queue queue answer answers next c)
  unfolding on_queue
  on_queue_inv [] answer answers next c h e p = flushed_inv c p
  on_queue_inv (pending ∷ rest) answer answers next c h e p =
      elim (Bool-cases (can_send c.socket (drop pending.offset pending.bytes))) [
        | inl can ↦ rw can (on_answer_inv answer answers pending rest next c h e p)
        | inr cannot ↦ rw cannot (dies c p)
      ]

  on_blocked_inv : (queue : List PendingSend) (c : Connection C) → P c → P (on_blocked queue c)
  unfolding on_blocked
  on_blocked_inv [] c p = flushed_inv c p
  on_blocked_inv (pending ∷ rest) c p =
      elim (Bool-cases (can_send c.socket (drop pending.offset pending.bytes))) [
        | inl can ↦ rw can p
        | inr cannot ↦ rw cannot (dies c p)
      ]

  flush_loop_inv :
      (answers : List (Expected NetError ℕ)) (c : Connection C) → P c → P (flush_loop answers c)
  unfolding flush_loop
  flush_loop_inv [] c p = on_blocked_inv c.send_queue c p
  flush_loop_inv (answer ∷ answers) c p =
      on_queue_inv c.send_queue answer answers (flush_loop answers) c
        (λ d. flush_loop_inv answers d) refl p

  pub flush_sends_inv : (c : Connection C) → P c → P (flush_sends c)
  unfolding flush_sends
  flush_sends_inv c p = flush_loop_inv c.socket.answers c p

module _ {C : Type 0} where
  pub flush_sends-inbound : (c : Connection C) → (flush_sends c).inbound ≡ c.inbound
  flush_sends-inbound c =
      flush_sends_inv (λ d. d.inbound ≡ c.inbound) (λ d p. mark_dead-inbound d ∙ p)
        (λ answers d p. p) (λ answers d pending rest taken e p. p) c refl

  mark_dead-sent :
      (c : Connection C)
      → (mark_dead c).socket.sent ++ queued (mark_dead c).send_queue
        ≡ c.socket.sent ++ queued c.send_queue
  unfolding mark_dead
  mark_dead-sent c = elim (Bool-cases (is_dead c.state)) [
    | inl already ↦ rw already
    | inr now ↦ rw now
  ]

  -- Flushing loses, repeats and reorders nothing: what the socket has taken, followed by what is
  -- still queued, stays the same, whatever the socket answers and even if the connection dies.
  pub flush_sends-fifo :
      (c : Connection C)
      → (flush_sends c).socket.sent ++ queued (flush_sends c).send_queue
        ≡ c.socket.sent ++ queued c.send_queue
  flush_sends-fifo c =
      flush_sends_inv
        (λ d. d.socket.sent ++ queued d.send_queue ≡ c.socket.sent ++ queued c.send_queue)
        (λ d p. mark_dead-sent d ∙ p)
        (λ answers d p. ap (λ x. x ++ queued d.send_queue) (append-nil d.socket.sent) ∙ p)
        (λ answers d pending rest taken e p.
          append_assoc d.socket.sent (take taken (drop pending.offset pending.bytes)) _
          ∙ ap (◌++◌ d.socket.sent) (advance-queued pending rest taken ∙ ap queued (sym e))
          ∙ p)
        c refl
