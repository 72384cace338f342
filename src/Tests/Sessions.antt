-- ===== src/Tests/Sessions.antt =====
-- Logins of a guest.
use slopline.Base.{
  ℕ, List, [], ◌∷◌, some, Expected, ok, err, equal, if◌then◌else◌, ◌≡◌, ◌⊎◌, refl, arith,
}
use slopline.Protocol.Constants.TransactionType
use slopline.Protocol.FieldList.{encode_field_list}
use slopline.Protocol.Transaction.{TransactionHeader}
use slopline.Protocol.AccessMask.{no_access}
use slopline.Net.Session.{
  look_up, process, accept, agree, LoginError, Session, SessionState, SessionConfig, UserRecord,
  ReceivedTransaction, new_session, normalize_login,
}
use slopline.Net.Session.Login.{login_body, process-login_body}
use slopline.Net.Session.States.{
  SessionRun, received, stays, goes, IsGranted, run-IsGranted, run-closed, process-active,
}
use slopline.Tests.Inputs.{hello, guest_access}

abbrev guest : UserRecord
guest = record { name = b'G' ∷ []; password = 200 ∷ 201 ∷ []; access = guest_access }

-- A server that knows one user, by the name "al".
lookup_guest : List ℕ → Expected LoginError UserRecord
lookup_guest name = if equal name (b'a' ∷ b'l' ∷ []) then ok guest else err LoginError.unknown_user

abbrev guest_config : SessionConfig
guest_config = record {
  server_name = b'S' ∷ [];
  server_version = 197;
  community_banner_id = 0;
  lookup_user = some lookup_guest;
  incorrect_login_message = b'N' ∷ b'o' ∷ [];
}

abbrev guest_session : Session
guest_session = record {
  config = guest_config;
  state = SessionState.fresh;
  login = [];
  access = no_access;
}

abbrev login_header : TransactionHeader
login_header = record {
  flag = 0;
  is_reply = 0;
  type = TransactionType.login;
  id = 3;
  error = 0;
  total_size = 16;
  data_size = 16;
}

abbrev login_transaction : List ℕ → ReceivedTransaction
login_transaction content = record { header = login_header; content = content }

guest_known : look_up guest_config (normalize_login (b'A' ∷ b'l' ∷ [])) ≡ ok guest
unfolding look_up normalize_login slopline.Net.Session.normalize_character lookup_guest
guest_known = refl

process-login_body_example :
    (body : List ℕ) × (encode_field_list (login_body (b'A' ∷ b'l' ∷ []) (200 ∷ 201 ∷ [])) ≡ ok body)
    × (process guest_session (login_transaction body)
        ≡ accept guest_session 3 (normalize_login (b'A' ∷ b'l' ∷ [])) guest)
process-login_body_example =
    process-login_body guest_session login_header (b'A' ∷ b'l' ∷ []) guest refl refl refl refl
      (omega arith, (omega arith, tt)) (omega arith) (omega arith) guest_known

logged_in :
    SessionRun guest_session
      (process guest_session (login_transaction process-login_body_example.0)).0
logged_in = goes (received guest_session (login_transaction process-login_body_example.0)) (stays _)

run-IsGranted_example :
    IsGranted (process guest_session (login_transaction process-login_body_example.0)).0
run-IsGranted_example =
    run-IsGranted guest_config
      (process guest_session (login_transaction process-login_body_example.0)).0
      (unfold new_session in logged_in)

abbrev closed_session : Session
closed_session = record guest_session { state = SessionState.closed }

run-closed_example : (process closed_session (login_transaction hello)).0 ≡ closed_session
run-closed_example =
    run-closed (goes (received closed_session (login_transaction hello)) (stays _)) refl

abbrev waiting_session : Session
waiting_session = record guest_session { state = SessionState.awaiting_agreement }

abbrev agreed_transaction : ReceivedTransaction
agreed_transaction = record {
  header = record login_header { type = TransactionType.agreed };
  content = [];
}

process-active_example :
    (waiting_session.state ≡ SessionState.active)
    ⊎ ((waiting_session.state ≡ SessionState.awaiting_agreement)
        × (agreed_transaction.header.type ≡ TransactionType.agreed))
process-active_example =
    process-active waiting_session agreed_transaction (unfold process agree in refl)
