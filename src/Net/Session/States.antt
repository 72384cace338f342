-- ===== src/Net/Session/States.antt =====
-- The life of a session: which states follow which, whatever is received.
use slopline.Base.{
  ℕ, Bool, true, false, not, ◌||◌, List, ok, ◌==◌, Bool-cases, ◌≡◌, ◌⊎◌, inl, inr, refl, sym, ap,
  ◌∙◌, subst, arith,
}
use slopline.Protocol.Constants.TransactionType
use slopline.Net.Session.{
  Session, SessionState, SessionConfig, UserRecord, ReceivedTransaction, new_session, is_closed,
  refuse, accept, look_up, agree, process, close_session,
}
use slopline.Net.Session.Login.{process-login}

-- What happens to a session: a transaction is received, or the owner closes it.
pub data SessionStep : Session → Session → Type 0 where
  received : (s : Session) (t : ReceivedTransaction) → SessionStep s (process s t).0
  closed : (s : Session) → SessionStep s (close_session s)

pub data SessionRun : Session → Session → Type 0 where
  stays : (s : Session) → SessionRun s s
  goes : {s t u : Session} → SessionStep s t → SessionRun t u → SessionRun s u

abbrev pub past_login : SessionState → Bool
past_login SessionState.awaiting_agreement = true
past_login SessionState.active = true
past_login _ = false

-- A session past the login has the access of a user whom the lookup knows under its login name.
abbrev pub IsGranted : Session → Type 0
IsGranted s =
    past_login s.state ≡ true
    → (user : UserRecord) × (look_up s.config s.login ≡ ok user) × (s.access ≡ user.access)

agree-at :
    (s : Session) (state : SessionState)
    → s.state ≡ state
    → (agree s ≡ s)
      ⊎ ((state ≡ SessionState.awaiting_agreement)
          × (agree s ≡ record s { state = SessionState.active }))
unfolding agree
agree-at s SessionState.awaiting_agreement e = inr (refl, rw e refl)
agree-at s SessionState.active e = inl (rw e refl)
agree-at s SessionState.fresh e = inl (rw e refl)
agree-at s SessionState.closed e = inl (rw e refl)

agree-IsGranted : (s : Session) → IsGranted s → IsGranted (agree s)
agree-IsGranted s h = elim (agree-at s s.state refl) [
  | inl same ↦ subst IsGranted (sym same) h
  | inr (waits, next) ↦ subst IsGranted (sym next) (λ _. h (ap past_login waits))
]

-- What a transaction can do: nothing, a refusal, a grant, or the agreement.
data Outcome (s : Session) (t : ReceivedTransaction) : Session → Type 0 where
  kept : Outcome s t s
  refused : (id : ℕ) (text : List ℕ) → Outcome s t (refuse s id text).0
  granted :
      (id : ℕ) (name : List ℕ) (user : UserRecord)
      → look_up s.config name ≡ ok user
      → Outcome s t (accept s id name user).0
  agreed : t.header.type ≡ TransactionType.agreed → Outcome s t (agree s)

process-Outcome : (s : Session) (t : ReceivedTransaction) → Outcome s t (process s t).0
process-Outcome s t = elim (Bool-cases (not (t.header.is_reply == 0) || is_closed s.state)) [
  | inl ignored ↦ unfold process in rw ignored kept
  | inr heard ↦ elim (Bool-cases (t.header.type == TransactionType.login)) [
    | inl login ↦ elim (process-login s t (ground arith) (ground arith) (ground arith)) [
      | inl (name, user, g, e) ↦
          subst (λ r. Outcome s t r.0) (sym e) (granted t.header.id name user g.is_user)
      | inr (denied, (text, e)) ↦ subst (λ r. Outcome s t r.0) (sym e) (refused t.header.id text)
    ]
    | inr other ↦ elim (Bool-cases (t.header.type == TransactionType.agreed)) [
      | inl agreement ↦ unfold process in rw (heard, other, agreement) (agreed (ground arith))
      | inr neither ↦ unfold process in rw (heard, other, neither) kept
    ]
  ]
]

outcome-IsGranted :
    (s r : Session) (t : ReceivedTransaction) → Outcome s t r → IsGranted s → IsGranted r
unfolding refuse accept
outcome-IsGranted s r t kept h = h
outcome-IsGranted s r t (refused id text) h = λ e. absurd (cc e)
outcome-IsGranted s r t (granted id name user known) h = λ _. (user, known, refl)
outcome-IsGranted s r t (agreed e) h = agree-IsGranted s h

step-IsGranted : {s t : Session} → SessionStep s t → IsGranted s → IsGranted t
unfolding close_session
step-IsGranted (received s t) h = outcome-IsGranted s _ t (process-Outcome s t) h
step-IsGranted (closed s) h = λ e. absurd (cc e)

run-keeps : {s t : Session} → SessionRun s t → IsGranted s → IsGranted t
run-keeps (stays s) h = h
run-keeps (goes step more) h = run-keeps more (step-IsGranted step h)

-- However a session came about from a new one, by transactions received and by closing: if it
-- awaits the agreement or is active, its access is that of a user whom the lookup knows under the
-- session's login name.
pub run-IsGranted :
    (config : SessionConfig) (s : Session) → SessionRun (new_session config) s → IsGranted s
unfolding new_session
run-IsGranted config s run = run-keeps run (λ e. absurd (cc e))

closed_stays : {s t : Session} → SessionStep s t → s.state ≡ SessionState.closed → t ≡ s
unfolding process close_session
closed_stays (received s t) e = elim (Bool-cases (not (t.header.is_reply == 0))) [
  | inl x ↦ rw (x, e) refl
  | inr x ↦ rw (x, e) refl
]
closed_stays (closed s) e = λ i. record s { state = sym e i }

-- A closed session stays as it is, whatever is received.
pub run-closed : {s t : Session} → SessionRun s t → s.state ≡ SessionState.closed → t ≡ s
run-closed (stays s) e = refl
run-closed (goes step more) e =
    let same = closed_stays step e in run-closed more (ap (λ x. x.state) same ∙ e) ∙ same

outcome-active :
    (s r : Session) (t : ReceivedTransaction)
    → Outcome s t r
    → r.state ≡ SessionState.active
    → (s.state ≡ SessionState.active)
      ⊎ ((s.state ≡ SessionState.awaiting_agreement) × (t.header.type ≡ TransactionType.agreed))
unfolding refuse accept
outcome-active s r t kept e = inl e
outcome-active s r t (refused id text) e = absurd (cc e)
outcome-active s r t (granted id name user known) e = absurd (cc e)
outcome-active s r t (agreed h) e = elim (agree-at s s.state refl) [
  | inl same ↦ inl (ap (λ x. x.state) (sym same) ∙ e)
  | inr (waits, next) ↦ inr (waits, h)
]

-- A transaction leaves a session active only if the session was active before, or if it awaited the
-- agreement and the transaction is `Agreed`.
pub process-active :
    (s : Session) (t : ReceivedTransaction)
    → (process s t).0.state ≡ SessionState.active
    → (s.state ≡ SessionState.active)
      ⊎ ((s.state ≡ SessionState.awaiting_agreement) × (t.header.type ≡ TransactionType.agreed))
process-active s t e = outcome-active s _ t (process-Outcome s t) e
