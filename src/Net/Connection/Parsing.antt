-- ===== src/Net/Connection/Parsing.antt =====
-- One round of `parse_inbound`: it makes progress, and bytes that come in later do not change it.
use slopline.Base.{
  ℕ, ◌+◌, ◌*◌, ◌≤◌, ◌<◌, List, [], ◌++◌, length, take, drop, length-append, length-drop,
  take-append_le, drop-append_le, ltb, ◌==◌, le→ltb, Bool-cases, ◌≡◌, refl, ap, inl, inr, arith,
  again, done, map_round, again-injective, subst,
}
use slopline.Protocol.Constants.{transaction_header_size}
use slopline.Net.Connection.{Connection, ReceiveStage}
use slopline.Net.Connection.Send.{mark_dead}
use slopline.Net.Connection.Receive.{
  rejects, dispatch, accumulated, reassemble, open_data, complete_transaction, open_header,
  header_taken, policed, receive_header, next_header, receive_data,
}

-- More bytes have come in.
abbrev pub feed : {C : Type 0} → List ℕ → Connection C → Connection C
feed more c = record c { inbound = c.inbound ++ more }

-- What a role's handshake promises the base class: it waits for `size` bytes, adds none to the
-- input, and does not look behind them.
pub record IsHandler {C : Type 0} (size : ℕ) (handle : Connection C → Connection C) : Type 0 where
  pub shrinks : (c : Connection C) → length (handle c).inbound ≤ length c.inbound
  pub ignores_rest :
      (c : Connection C) (more : List ℕ)
      → size ≤ length c.inbound
      → handle (feed more c) ≡ feed more (handle c)

-- A stage other than the header's may pass without taking bytes, once.
unfoldable pub stage_weight : ReceiveStage → ℕ
stage_weight ReceiveStage.header = 0
stage_weight _ = 1

module _ {C : Type 0} where
  unfoldable pub measure : Connection C → ℕ
  unfolding stage_weight
  measure c = 2 * length c.inbound + stage_weight c.receive_stage

  pub complete_transaction-inbound :
      (c : Connection C) (bytes : List ℕ) → (complete_transaction c bytes).inbound ≡ c.inbound
  unfolding complete_transaction reassemble dispatch
  complete_transaction-inbound c bytes = ground arith

  reassemble-feed :
      (c : Connection C) (bytes more : List ℕ)
      → reassemble (feed more c) bytes ≡ feed more (reassemble c bytes)
  unfolding reassemble accumulated dispatch
  reassemble-feed c bytes more =
      elim (Bool-cases (ltb (length (accumulated c bytes)) c.pending_header.total_size)) [
        | inl part ↦ rw part
        | inr whole ↦ rw whole
      ]

  pub complete_transaction-feed :
      (c : Connection C) (bytes more : List ℕ)
      → complete_transaction (feed more c) bytes ≡ feed more (complete_transaction c bytes)
  unfolding complete_transaction open_data
  complete_transaction-feed c bytes more =
      elim (Bool-cases (c.pending_header.total_size == c.pending_header.data_size)) [
        | inl whole ↦ rw whole (unfold dispatch in refl)
        | inr part ↦ rw part (reassemble-feed _ _ more)
      ]

  pub mark_dead-feed :
      (c : Connection C) (more : List ℕ) → mark_dead (feed more c) ≡ feed more (mark_dead c)
  unfolding mark_dead
  mark_dead-feed c more = ground arith

  pub receive_header_falls :
      (c t : Connection C)
      → receive_header c ≡ again t
      → c.receive_stage ≡ ReceiveStage.header
      → measure t < measure c
  unfolding receive_header policed header_taken measure stage_weight
  receive_header_falls c t e stage = ground (arith, length-drop transaction_header_size c.inbound)

  pub receive_data_falls :
      (c t : Connection C)
      → receive_data c ≡ again t
      → c.receive_stage ≡ ReceiveStage.body
      → measure t < measure c
  unfolding receive_data next_header measure
  receive_data_falls c t e stage = elim (Bool-cases (ltb (length c.inbound) c.expected_bytes)) [
    | inl short ↦ absurd (cc (rw short at e))
    | inr enough ↦
        let taken = record c { inbound = drop c.expected_bytes c.inbound; pending_data = [] } in
        let bytes = c.pending_data ++ take c.expected_bytes c.inbound in
        let weight = ap stage_weight stage in
        subst (λ u. measure u < measure c) (again-injective (rw enough at e))
          (unfold stage_weight in
            omega (
              arith,
              ap (length {A = ℕ}) (complete_transaction-inbound taken bytes),
              length-drop c.expected_bytes c.inbound,
              weight,
            ))
  ]

  policed-feed :
      (c : Connection C) (more : List ℕ) → policed (feed more c) ≡ map_round (feed more) (policed c)
  unfolding policed
  policed-feed c more = elim (Bool-cases (rejects c.max_receive_size c.pending_header)) [
    | inl bad ↦ rw bad (ap done (mark_dead-feed c more))
    | inr good ↦ rw good
  ]

  header_taken-feed :
      (c : Connection C) (more : List ℕ) (opened : ℕ × List ℕ × C)
      → transaction_header_size ≤ length c.inbound
      → header_taken (feed more c) opened ≡ feed more (header_taken c opened)
  unfolding header_taken
  header_taken-feed c more (flag, bytes, cipher) h =
      rw (drop-append_le transaction_header_size c.inbound more h)

  pub receive_header-feed :
      (c : Connection C) (more : List ℕ)
      → transaction_header_size ≤ length c.inbound
      → receive_header (feed more c) ≡ map_round (feed more) (receive_header c)
  unfolding receive_header open_header
  receive_header-feed c more h =
      let opened = open_header c (take transaction_header_size c.inbound) in
      rw
        (
          le→ltb (length (c.inbound ++ more)) transaction_header_size
              (omega (arith, length-append c.inbound more)),
          le→ltb (length c.inbound) transaction_header_size h,
          take-append_le transaction_header_size c.inbound more h,
          header_taken-feed c more opened h,
        )
        (policed-feed (header_taken c opened) more)

  pub receive_data-feed :
      (c : Connection C) (more : List ℕ)
      → c.expected_bytes ≤ length c.inbound
      → receive_data (feed more c) ≡ map_round (feed more) (receive_data c)
  unfolding receive_data next_header
  receive_data-feed c more h =
      let taken = record c { inbound = drop c.expected_bytes c.inbound; pending_data = [] } in
      let bytes = c.pending_data ++ take c.expected_bytes c.inbound in
      rw
        (
          le→ltb (length (c.inbound ++ more)) c.expected_bytes
              (omega (arith, length-append c.inbound more)),
          le→ltb (length c.inbound) c.expected_bytes h,
          take-append_le c.expected_bytes c.inbound more h,
          drop-append_le c.expected_bytes c.inbound more h,
        )
        (rw (complete_transaction-feed taken bytes more))

  pub mark_dead-inbound : (c : Connection C) → (mark_dead c).inbound ≡ c.inbound
  unfolding mark_dead
  mark_dead-inbound c = ground arith
