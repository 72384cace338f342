-- ===== src/Net/Connection/Stream.antt =====
-- `parse_inbound` ends on every input, and does not depend on how the network cuts the stream.
use slopline.Base.{
  ltb→lt, some_inj, ◌⊎◌, ℕ, zero, suc, ◌+◌, ◌*◌, ◌≤◌, ◌<◌, true, ◌||◌, List, ◌++◌, Option, some,
  length, length-append, ltb, le→ltb, ltb→le, lt→ltb, Bool-cases, ◌≡◌, refl, sym, ap, ◌∙◌, inl, inr,
  arith, again, done, run, run_again, run_done, run_total, run_enough, Round-cases, map_round,
  again-injective, done-injective, subst,
}
use slopline.Protocol.Constants.{transaction_header_size}
use slopline.Net.Connection.{Connection, ReceiveStage}
use slopline.Net.Connection.Send.{is_dead, is_closing, mark_dead}
use slopline.Net.Connection.Receive.{
  policed, receive_header, next_header, receive_data, receive_handshake, receive_stage_round,
  parse_round, parse_inbound,
}
use slopline.Net.Connection.Parsing.{
  feed, IsHandler, stage_weight, measure, receive_header_falls, receive_data_falls,
  receive_header-feed, receive_data-feed,
}

-- The bytes that a stage waits for.
abbrev needed : {C : Type 0} → Connection C → ReceiveStage → ℕ
needed c ReceiveStage.handshake = c.expected_bytes
needed c ReceiveStage.header = transaction_header_size
needed c ReceiveStage.body = c.expected_bytes

-- In the handshake stage a connection waits for the handshake's bytes.
abbrev pub Waits : {C : Type 0} → ℕ → Connection C → Type 0
Waits size c = c.receive_stage ≡ ReceiveStage.handshake → c.expected_bytes ≡ size

module _ {C : Type 0} (handle : Connection C → Connection C) {size : ℕ}
    (laws : IsHandler size handle) where
  receive_handshake_falls :
      (c t : Connection C)
      → receive_handshake handle c ≡ again t
      → c.receive_stage ≡ ReceiveStage.handshake
      → measure t < measure c
  unfolding receive_handshake next_header measure
  receive_handshake_falls c t e stage =
      elim (Bool-cases (ltb (length c.inbound) c.expected_bytes)) [
        | inl short ↦ absurd (cc (rw short at e))
        | inr enough ↦
            let weight = ap stage_weight stage in
            subst (λ u. measure u < measure c) (again-injective (rw enough at e))
              (unfold stage_weight in omega (arith, laws.shrinks c, weight))
      ]

  stage_falls :
      (stage : ReceiveStage) (c t : Connection C)
      → receive_stage_round handle stage c ≡ again t
      → c.receive_stage ≡ stage
      → measure t < measure c
  unfolding receive_stage_round
  stage_falls ReceiveStage.handshake c t e s = receive_handshake_falls c t e s
  stage_falls ReceiveStage.header c t e s = receive_header_falls c t e s
  stage_falls ReceiveStage.body c t e s = receive_data_falls c t e s

  pub parse_round_falls :
      (c t : Connection C) → parse_round handle c ≡ again t → measure t < measure c
  unfolding parse_round
  parse_round_falls c t e = elim (Bool-cases (is_dead c.state || is_closing c.state)) [
    | inl over ↦ absurd (cc (rw over at e))
    | inr live ↦ stage_falls c.receive_stage c t (rw live at e) refl
  ]

  pub measure_bound : (c : Connection C) → measure c < 2 * length c.inbound + 2
  unfolding measure stage_weight
  measure_bound c = ground arith

  -- The loop of `parse_inbound` ends on every state and every input, its fuel never runs out, for a
  -- handshake that keeps `IsHandler`.
  pub parse_inbound_total :
      (c : Connection C) → (t : Connection C) × (parse_inbound handle c ≡ some t)
  unfolding parse_inbound
  parse_inbound_total c =
      run_total (parse_round handle) measure parse_round_falls _ c (measure_bound c)

  stage-feed :
      (stage : ReceiveStage) (c : Connection C) (more : List ℕ)
      → Waits size c
      → c.receive_stage ≡ stage
      → needed c stage ≤ length c.inbound
      → receive_stage_round handle stage (feed more c)
        ≡ map_round (feed more) (receive_stage_round handle stage c)
  unfolding receive_stage_round receive_handshake next_header
  stage-feed ReceiveStage.handshake c more waits s h =
      rw
        (
          le→ltb (length (c.inbound ++ more)) c.expected_bytes
              (omega (arith, length-append c.inbound more)),
          le→ltb (length c.inbound) c.expected_bytes h,
          laws.ignores_rest c more (omega (arith, waits s)),
        )
        refl
  stage-feed ReceiveStage.header c more waits s h = receive_header-feed c more h
  stage-feed ReceiveStage.body c more waits s h = receive_data-feed c more h

  stage_waits :
      (stage : ReceiveStage) (c : Connection C)
      → length c.inbound < needed c stage
      → receive_stage_round handle stage c ≡ done c
  unfolding receive_stage_round receive_handshake receive_header receive_data
  stage_waits ReceiveStage.handshake c h = rw (lt→ltb _ _ h)
  stage_waits ReceiveStage.header c h = rw (lt→ltb _ _ h)
  stage_waits ReceiveStage.body c h = rw (lt→ltb _ _ h)

  stage_leaves_handshake :
      (stage : ReceiveStage) (c t : Connection C)
      → receive_stage_round handle stage c ≡ again t
      → Waits size t
  unfolding receive_stage_round receive_handshake receive_header receive_data policed next_header
  stage_leaves_handshake ReceiveStage.handshake c t e = λ s. ground arith
  stage_leaves_handshake ReceiveStage.header c t e = λ s. ground arith
  stage_leaves_handshake ReceiveStage.body c t e = λ s. ground arith

  stage_done_dead :
      (stage : ReceiveStage) (c t : Connection C)
      → receive_stage_round handle stage c ≡ done t
      → needed c stage ≤ length c.inbound
      → is_dead t.state ≡ true
  unfolding receive_stage_round receive_handshake receive_header receive_data policed mark_dead
      is_dead
  stage_done_dead ReceiveStage.handshake c t e h = absurd (cc (rw (le→ltb _ _ h) at e))
  stage_done_dead ReceiveStage.header c t e h = ground arith
  stage_done_dead ReceiveStage.body c t e h = absurd (cc (rw (le→ltb _ _ h) at e))

  round_over : (c : Connection C) → is_dead c.state ≡ true → parse_round handle c ≡ done c
  unfolding parse_round
  round_over c h = rw h

  -- A round that ends has waited for bytes and changed nothing, or it leaves a dead connection; then
  -- bytes that come in behind it are not looked at.
  round_end :
      (c t : Connection C) (more : List ℕ)
      → Waits size c
      → parse_round handle c ≡ done t
      → (t ≡ c)
        ⊎ ((parse_round handle (feed more c) ≡ done (feed more t))
            × (parse_round handle (feed more t) ≡ done (feed more t)))
  unfolding parse_round
  round_end c t more w e = elim (Bool-cases (is_dead c.state || is_closing c.state)) [
    | inl over ↦ inl (sym (done-injective (rw over at e)))
    | inr live ↦
        let at_stage : receive_stage_round handle c.receive_stage c ≡ done t = rw live at e in
        elim (Bool-cases (ltb (length c.inbound) (needed c c.receive_stage))) [
          | inl short ↦ inl (
              sym (
                done-injective (sym (stage_waits c.receive_stage c (ltb→lt _ _ short)) ∙ at_stage)))
          | inr enough ↦ inr (
            rw live (
                stage-feed c.receive_stage c more w refl (ltb→le _ _ enough)
                ∙ ap (map_round (feed more)) at_stage),
            round_over (feed more t)
                (stage_done_dead c.receive_stage c t at_stage (ltb→le _ _ enough)),
          )
        ]
  ]

  -- A round that goes on, goes on in the same way with more bytes behind.
  round_again :
      (c t : Connection C) (more : List ℕ)
      → Waits size c
      → parse_round handle c ≡ again t
      → (parse_round handle (feed more c) ≡ again (feed more t)) × Waits size t
  unfolding parse_round
  round_again c t more w e = elim (Bool-cases (is_dead c.state || is_closing c.state)) [
    | inl over ↦ absurd (cc (rw over at e))
    | inr live ↦
        let at_stage : receive_stage_round handle c.receive_stage c ≡ again t = rw live at e in
        elim (Bool-cases (ltb (length c.inbound) (needed c c.receive_stage))) [
          | inl short ↦ absurd (cc (stage_waits c.receive_stage c (ltb→lt _ _ short), at_stage))
          | inr enough ↦ (
            rw live (
                stage-feed c.receive_stage c more w refl (ltb→le _ _ enough)
                ∙ ap (map_round (feed more)) at_stage),
            stage_leaves_handshake c.receive_stage c t at_stage,
          )
        ]
  ]

  run-feed :
      (fuel : ℕ) (c t : Connection C) (more : List ℕ) (g k : ℕ)
      → Waits size c
      → run (parse_round handle) fuel c ≡ some t
      → measure (feed more c) < g
      → measure (feed more t) < k
      → run (parse_round handle) g (feed more c) ≡ run (parse_round handle) k (feed more t)
  run-feed zero c t more g k w e hg hk = absurd (unfold run in cc e)
  run-feed (suc fuel) c t more zero k w e hg hk = absurd (omega arith)
  run-feed (suc fuel) c t more (suc g) zero w e hg hk = absurd (omega arith)
  run-feed (suc fuel) c t more (suc g) (suc k) w e hg hk =
      elim (Round-cases (parse_round handle c)) [
        | inl (u, r) ↦
            let (forth, waits) = round_again c u more w r in
            run_again (parse_round handle) g (feed more c) (feed more u) forth
            ∙ run-feed fuel u t more g (suc k) waits
                (sym (run_again (parse_round handle) fuel c u r) ∙ e)
                (omega (arith, parse_round_falls (feed more c) (feed more u) forth)) hk
        | inr (u, r) ↦
            let same : u ≡ t = some_inj (sym (run_done (parse_round handle) fuel c u r) ∙ e) in
            let from : Connection C → Option (Connection C) =
              λ x. run (parse_round handle) (suc k) (feed more x) in
            elim (round_end c u more w r) [
              | inl stays ↦
                  run_enough (parse_round handle) measure parse_round_falls (suc g) (suc k)
                    (feed more c) hg
                    (subst (λ x. measure (feed more x) < suc k) (sym same ∙ stays) hk)
                  ∙ ap from (sym stays ∙ same)
              | inr (forth, over) ↦
                  run_done (parse_round handle) g (feed more c) (feed more u) forth
                  ∙ sym (run_done (parse_round handle) k (feed more u) (feed more u) over)
                  ∙ ap from same
            ]
      ]

  -- It makes no difference how the network cuts the stream: to parse what has come in, and then
  -- again with the bytes that come in later, ends where one pass over all the bytes ends. The
  -- handshake keeps `IsHandler`, and a connection in that stage waits for its bytes.
  pub parse_inbound-feed :
      (c t : Connection C) (more : List ℕ)
      → Waits size c
      → parse_inbound handle c ≡ some t
      → parse_inbound handle (feed more c) ≡ parse_inbound handle (feed more t)
  unfolding parse_inbound
  parse_inbound-feed c t more w e =
      run-feed _ c t more _ _ w e (measure_bound (feed more c)) (measure_bound (feed more t))
