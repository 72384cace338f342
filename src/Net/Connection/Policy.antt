-- ===== src/Net/Connection/Policy.antt =====
-- The receive policy: what a peer can make a connection hold, and how parts become a transaction.
use slopline.Base.{
  ℕ, ◌≤◌, ◌<◌, ◌&&◌, ◌||◌, List, [], ◌∷◌, ◌++◌, some, length, take, drop, All, ltb, ltb→lt, ◌==◌,
  Bool-cases, ◌≡◌, refl, sym, inl, inr, arith, Round, again, done, run_inv, subst,
}
use slopline.Net.Connection.{Connection, ReceiveStage, PartialReceive}
use slopline.Net.Connection.Send.{is_dead, is_closing, mark_dead}
use slopline.Net.Connection.Receive.{
  erase_partial, rejects, dispatch, accumulated, reassemble, open_data, complete_transaction,
  header_taken, policed, receive_header, next_header, receive_data, receive_handshake,
  receive_stage_round, parse_round, parse_inbound,
}

-- An unfinished transaction holds less than its announced size, which the policy has admitted.
abbrev pub IsUnfinished : ℕ → PartialReceive → Type 0
IsUnfinished max_receive_size entry =
    (length entry.received < entry.header.total_size) × (entry.header.total_size ≤ max_receive_size)

-- All unfinished transactions are such, and the data that is waited for has passed the policy.
abbrev pub IsBounded : {C : Type 0} → Connection C → Type 0
IsBounded c =
    All (IsUnfinished c.max_receive_size) c.partial
    × ((c.receive_stage ≡ ReceiveStage.body)
        → (c.pending_header.total_size ≤ c.max_receive_size)
          × (c.expected_bytes ≡ c.pending_header.data_size)
          × (c.pending_header.data_size ≤ c.max_receive_size))

erase_partial-All :
    (P : PartialReceive → Type 0) (is_reply id : ℕ) (entries : List PartialReceive)
    → All P entries
    → All P (erase_partial is_reply id entries)
unfolding erase_partial
erase_partial-All P is_reply id [] h = h
erase_partial-All P is_reply id (entry ∷ entries) (first, h) =
    let kept = erase_partial-All P is_reply id entries h in
    elim (Bool-cases (entry.is_reply == is_reply && entry.id == id)) [
      | inl same ↦ rw same kept
      | inr other ↦ rw other (first, kept)
    ]

-- What a role's handshake leaves alone.
pub record KeepsParts {C : Type 0} (handle : Connection C → Connection C) : Type 0 where
  pub parts : (c : Connection C) → (handle c).partial ≡ c.partial
  pub limit : (c : Connection C) → (handle c).max_receive_size ≡ c.max_receive_size

module _ {C : Type 0} where
  mark_dead-IsBounded : (c : Connection C) → IsBounded c → IsBounded (mark_dead c)
  unfolding mark_dead
  mark_dead-IsBounded c h = elim (Bool-cases (is_dead c.state)) [
    | inl already ↦ rw already h
    | inr now ↦ rw now h
  ]

  reassemble-IsBounded :
      (c : Connection C) (bytes : List ℕ)
      → All (IsUnfinished c.max_receive_size) c.partial
      → c.pending_header.total_size ≤ c.max_receive_size
      → All (IsUnfinished c.max_receive_size) (reassemble c bytes).partial
  unfolding reassemble dispatch
  reassemble-IsBounded c bytes h small =
      let others =
        erase_partial-All (IsUnfinished c.max_receive_size) c.pending_header.is_reply
          c.pending_header.id c.partial h in
      elim (Bool-cases (ltb (length (accumulated c bytes)) c.pending_header.total_size)) [
        | inl part ↦ rw part ((ltb→lt _ _ part, small), others)
        | inr whole ↦ rw whole others
      ]

  complete_transaction-IsBounded :
      (c : Connection C) (bytes : List ℕ)
      → All (IsUnfinished c.max_receive_size) c.partial
      → c.pending_header.total_size ≤ c.max_receive_size
      → All (IsUnfinished c.max_receive_size) (complete_transaction c bytes).partial
  unfolding complete_transaction dispatch
  complete_transaction-IsBounded c bytes h small =
      elim (Bool-cases (c.pending_header.total_size == c.pending_header.data_size)) [
        | inl single ↦ rw single h
        | inr part ↦ rw part (
            reassemble-IsBounded (record c { cipher = (open_data c bytes).1 }) (open_data c bytes).0
              h small)
      ]

  complete_transaction-limit :
      (c : Connection C) (bytes : List ℕ)
      → (complete_transaction c bytes).max_receive_size ≡ c.max_receive_size
  unfolding complete_transaction reassemble dispatch
  complete_transaction-limit c bytes = ground arith

abbrev Ends : {S : Type 0} → (S → Type 0) → Round S → Type 0
Ends P (again s) = P s
Ends P (done s) = P s

module _ {C : Type 0} where
  policed-IsBounded :
      (c : Connection C)
      → All (IsUnfinished c.max_receive_size) c.partial
      → ((c.receive_stage ≡ ReceiveStage.header))
      → Ends IsBounded (policed c)
  unfolding policed
  policed-IsBounded c h stage = elim (Bool-cases (rejects c.max_receive_size c.pending_header)) [
    | inl refused ↦ rw refused (mark_dead-IsBounded c (h, λ e. absurd (cc (stage, e))))
    | inr passed ↦
        rw passed (h, λ e. unfold rejects in (ground (arith, passed), refl, ground (arith, passed)))
  ]

  receive_header-IsBounded :
      (c : Connection C)
      → IsBounded c
      → c.receive_stage ≡ ReceiveStage.header
      → Ends IsBounded (receive_header c)
  unfolding receive_header header_taken
  receive_header-IsBounded c h stage = elim (Bool-cases (ltb (length c.inbound) 20)) [
    | inl short ↦ rw short h
    | inr enough ↦ rw enough (policed-IsBounded _ h.0 stage)
  ]

  receive_data-IsBounded :
      (c : Connection C)
      → IsBounded c
      → c.receive_stage ≡ ReceiveStage.body
      → Ends IsBounded (receive_data c)
  unfolding receive_data next_header
  receive_data-IsBounded c h stage = elim (Bool-cases (ltb (length c.inbound) c.expected_bytes)) [
    | inl short ↦ rw short h
    | inr enough ↦
        let taken = record c { inbound = drop c.expected_bytes c.inbound; pending_data = [] } in
        let bytes = c.pending_data ++ take c.expected_bytes c.inbound in
        rw enough (
          subst (λ m. All (IsUnfinished m) (complete_transaction taken bytes).partial)
              (sym (complete_transaction-limit taken bytes))
              (complete_transaction-IsBounded taken bytes h.0 (h.1 stage).0),
          λ e. absurd (cc e),
        )
  ]

module _ {C : Type 0} (handle : Connection C → Connection C) (keeps : KeepsParts handle) where
  receive_handshake-IsBounded :
      (c : Connection C) → IsBounded c → Ends IsBounded (receive_handshake handle c)
  unfolding receive_handshake next_header
  receive_handshake-IsBounded c h = elim (Bool-cases (ltb (length c.inbound) c.expected_bytes)) [
    | inl short ↦ rw short h
    | inr enough ↦ rw enough (
      subst (λ m. All (IsUnfinished m) (handle c).partial) (sym (keeps.limit c))
          (subst (All (IsUnfinished c.max_receive_size)) (sym (keeps.parts c)) h.0),
      λ e. absurd (cc e),
    )
  ]

  stage-IsBounded :
      (stage : ReceiveStage) (c : Connection C)
      → c.receive_stage ≡ stage
      → IsBounded c
      → Ends IsBounded (receive_stage_round handle stage c)
  unfolding receive_stage_round
  stage-IsBounded ReceiveStage.handshake c e h = receive_handshake-IsBounded c h
  stage-IsBounded ReceiveStage.header c e h = receive_header-IsBounded c h e
  stage-IsBounded ReceiveStage.body c e h = receive_data-IsBounded c h e

  parse_round-IsBounded : (c : Connection C) → IsBounded c → Ends IsBounded (parse_round handle c)
  unfolding parse_round
  parse_round-IsBounded c h = elim (Bool-cases (is_dead c.state || is_closing c.state)) [
    | inl over ↦ rw over h
    | inr live ↦ rw live (stage-IsBounded c.receive_stage c refl h)
  ]

  -- Whatever a peer sends, what a connection holds of unfinished transactions stays bounded: every
  -- one has less than its announced size, which is at most max_receive_size, and so is the part
  -- that is waited for. For a role whose handshake leaves the parts and the limit alone.
  pub parse_inbound-IsBounded :
      (c t : Connection C) → IsBounded c → parse_inbound handle c ≡ some t → IsBounded t
  unfolding parse_inbound
  parse_inbound-IsBounded c t h e =
      run_inv (parse_round handle) IsBounded
        (λ s u p step. elim step [
          | inl goes ↦ subst (Ends IsBounded) goes (parse_round-IsBounded s p)
          | inr ends ↦ subst (Ends IsBounded) ends (parse_round-IsBounded s p)
        ])
        _ c t h e
