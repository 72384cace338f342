-- ===== src/Net/Session/Login.antt =====
-- What a login request does: it is granted, or the session is closed.
use slopline.Base.{
  sym, ◌≢◌, ℕ, suc, ◌≤◌, false, List, [], ◌∷◌, length, Option, none, some, Expected, ok, err, equal,
  equal_refl, equal→eq, is_empty, Bool-cases, All, ◌≡◌, ◌⊎◌, inl, inr, refl, ap, ap₂, ◌∙◌, arith,
}
use slopline.Core.Errors.{DecodeError}
use slopline.Core.Endian.{IsByte}
use slopline.Protocol.Transaction.{TransactionHeader}
use slopline.Protocol.Constants.TransactionType
use slopline.Protocol.Constants.FieldId
use slopline.Protocol.Constants.{max_field_data_size}
use slopline.Protocol.FieldList.{
  Field, FieldList, encode_field_list, decode_field_list, find_field, make_string_field,
}
use slopline.Protocol.FieldList.RoundTrip.{decode-encode_field_list}
use slopline.Net.Session.{
  Session, SessionConfig, LoginError, UserRecord, ReceivedTransaction, OutgoingReply, scramble,
  normalize_login, bad_login, is_closed, refuse, accept, look_up, login_as, login_with,
  login_fields, process,
}

-- What a body must hold to log `user` in as `name`.
pub record Grants (config : SessionConfig) (content name : List ℕ) (user : UserRecord)
    : Type 0 where
  pub fields : FieldList
  pub is_body : decode_field_list content ≡ ok fields
  pub login_field : Field
  pub has_login : find_field fields FieldId.user_login ≡ some login_field
  pub password_field : Field
  pub has_password : find_field fields FieldId.user_password ≡ some password_field
  pub not_empty : is_empty login_field.content ≡ false
  pub is_name : normalize_login (scramble login_field.content) ≡ name
  pub is_user : look_up config name ≡ ok user
  pub matches : password_field.content ≡ user.password

login_with-accept :
    (s : Session) (id : ℕ) (login_field password_field : Field) (user : UserRecord)
    → is_empty login_field.content ≡ false
    → look_up s.config (normalize_login (scramble login_field.content)) ≡ ok user
    → password_field.content ≡ user.password
    → login_with s id (some login_field) (some password_field)
      ≡ accept s id (normalize_login (scramble login_field.content)) user
unfolding login_with login_as
login_with-accept s id login_field password_field user filled found same =
    rw (filled, found, same, equal_refl user.password)

-- A request whose body grants a login is accepted, with the user's access and name.
login_fields-accept :
    (s : Session) (id : ℕ) (content name : List ℕ) (user : UserRecord)
    → Grants s.config content name user
    → login_fields s id (decode_field_list content) ≡ accept s id name user
unfolding login_fields
login_fields-accept s id content name user g =
    rw (g.is_body, g.has_login, g.has_password)
      (login_with-accept s id g.login_field g.password_field user g.not_empty
          (ap (look_up s.config) g.is_name ∙ g.is_user) g.matches
        ∙ ap (λ n. accept s id n user) g.is_name)

-- The branches of a login that closes the session.
abbrev pub Refusal : Session → ℕ → Session × Option OutgoingReply → Type 0
Refusal s id r = (text : List ℕ) × (r ≡ refuse s id text)

abbrev pub Verdict : Session → ℕ → List ℕ → Session × Option OutgoingReply → Type 0
Verdict s id content r =
    ((name : List ℕ) × (user : UserRecord) × Grants s.config content name user
      × (r ≡ accept s id name user))
    ⊎ Refusal s id r

module _ (s : Session) (id : ℕ) (content : List ℕ) (fields : FieldList)
    (is_body : decode_field_list content ≡ ok fields) (login_field password_field : Field)
    (has_login : find_field fields FieldId.user_login ≡ some login_field)
    (has_password : find_field fields FieldId.user_password ≡ some password_field) where
  login_as-Verdict :
      (r : Expected LoginError UserRecord)
      → is_empty login_field.content ≡ false
      → look_up s.config (normalize_login (scramble login_field.content)) ≡ r
      → Verdict s id content
          (login_as s id (normalize_login (scramble login_field.content)) password_field.content r)
  unfolding login_as
  login_as-Verdict (err e) filled found = inr (_, refl)
  login_as-Verdict (ok user) filled found =
      elim (Bool-cases (equal password_field.content user.password)) [
        | inr other ↦ inr (s.config.incorrect_login_message, rw other refl)
        | inl same ↦ inl (
          normalize_login (scramble login_field.content),
          user,
          record {
            fields = fields;
            is_body = is_body;
            login_field = login_field;
            has_login = has_login;
            password_field = password_field;
            has_password = has_password;
            not_empty = filled;
            is_name = refl;
            is_user = found;
            matches = equal→eq _ _ same;
          },
          rw same refl,
        )
      ]

  login_with-Verdict :
      Verdict s id content (login_with s id (some login_field) (some password_field))
  unfolding login_with
  login_with-Verdict = elim (Bool-cases (is_empty login_field.content)) [
    | inl empty ↦ inr (bad_login, rw empty refl)
    | inr filled ↦ rw filled (login_as-Verdict _ filled refl)
  ]

module _ (s : Session) (id : ℕ) (content : List ℕ) where
  found-Verdict :
      (fields : FieldList)
      → decode_field_list content ≡ ok fields
      → (login_field password_field : Option Field)
      → find_field fields FieldId.user_login ≡ login_field
      → find_field fields FieldId.user_password ≡ password_field
      → Verdict s id content (login_with s id login_field password_field)
  unfolding login_with
  found-Verdict fields is_body (some l) (some p) has_login has_password =
      login_with-Verdict s id content fields is_body l p has_login has_password
  found-Verdict fields is_body (some l) none has_login has_password = inr (bad_login, refl)
  found-Verdict fields is_body none p has_login has_password = inr (bad_login, refl)

  fields-Verdict :
      (r : Expected DecodeError FieldList)
      → decode_field_list content ≡ r
      → Verdict s id content (login_fields s id r)
  unfolding login_fields
  fields-Verdict (err e) is_body = inr (bad_login, refl)
  fields-Verdict (ok fields) is_body = found-Verdict fields is_body _ _ refl refl

-- No login can be granted, and the session is closed with an error.
abbrev pub Denial : Session → ℕ → List ℕ → Session × Option OutgoingReply → Type 0
Denial s id content r =
    ¬ ((name : List ℕ) × (user : UserRecord) × Grants s.config content name user) × Refusal s id r

accept-refuse :
    (s : Session) (id : ℕ) (name text : List ℕ) (user : UserRecord)
    → accept s id name user ≢ refuse s id text
unfolding accept refuse
accept-refuse s id name text user e = absurd (cc (ap (λ r. r.0.state) e))

pub process-login :
    (s : Session) (t : ReceivedTransaction)
    → t.header.is_reply ≡ 0
    → t.header.type ≡ TransactionType.login
    → is_closed s.state ≡ false
    → ((name : List ℕ) × (user : UserRecord) × Grants s.config t.content name user
        × (process s t ≡ accept s t.header.id name user))
      ⊎ Denial s t.header.id t.content (process s t)
unfolding process
process-login s t request login alive =
    rw (request, login, alive)
      (elim (fields-Verdict s t.header.id t.content _ refl) [
        | inl granted ↦ inl granted
        | inr (text, e) ↦ inr (
          λ (name, user, g).
              accept-refuse s t.header.id name text user
                (sym (login_fields-accept s t.header.id t.content name user g) ∙ e),
          (text, e),
        )
      ])

pub scramble-scramble : (bytes : List ℕ) → All IsByte bytes → scramble (scramble bytes) ≡ bytes
unfolding scramble
scramble-scramble [] h = refl
scramble-scramble (byte ∷ bytes) h =
    ap₂ (λ (b : ℕ) (bs : List ℕ). b ∷ bs) (omega (arith, h.0)) (scramble-scramble bytes h.1)

length-scramble : (bytes : List ℕ) → length (scramble bytes) ≡ length bytes
unfolding scramble
length-scramble [] = refl
length-scramble (byte ∷ bytes) = ap suc (length-scramble bytes)

is_empty-scramble : (bytes : List ℕ) → is_empty (scramble bytes) ≡ is_empty bytes
unfolding scramble
is_empty-scramble [] = refl
is_empty-scramble (byte ∷ bytes) = refl

-- The body that a client sends: the name scrambled, the password as it is stored.
abbrev pub login_body : List ℕ → List ℕ → FieldList
login_body name password =
    make_string_field FieldId.user_login (scramble name)
    ∷ make_string_field FieldId.user_password password
    ∷ []

pub process-login_body :
    (s : Session) (header : TransactionHeader) (name : List ℕ) (user : UserRecord)
    → header.is_reply ≡ 0
    → header.type ≡ TransactionType.login
    → is_closed s.state ≡ false
    → is_empty name ≡ false
    → All IsByte name
    → length name ≤ max_field_data_size
    → length user.password ≤ max_field_data_size
    → look_up s.config (normalize_login name) ≡ ok user
    → (body : List ℕ) × (encode_field_list (login_body name user.password) ≡ ok body)
      × (process s (record { header = header; content = body })
          ≡ accept s header.id (normalize_login name) user)
process-login_body s header name user request login alive filled is_bytes name_fits password_fits
      known =
    let fields = login_body name user.password in
    let (body, encoded, decoded) =
      decode-encode_field_list fields
        (unfold make_string_field in
          ((omega arith, omega (arith, length-scramble name)), ((omega arith, password_fits), tt)))
        (omega arith) in
    (
      body,
      encoded,
      unfold process in
          rw (request, login, alive)
            (login_fields-accept s header.id body (normalize_login name) user (record {
              fields = fields;
              is_body = decoded;
              login_field = make_string_field FieldId.user_login (scramble name);
              has_login = unfold find_field make_string_field in refl;
              password_field = make_string_field FieldId.user_password user.password;
              has_password = unfold find_field make_string_field in refl;
              not_empty = unfold make_string_field in is_empty-scramble name ∙ filled;
              is_name =
                  unfold make_string_field in ap normalize_login (scramble-scramble name is_bytes);
              is_user = known;
              matches = unfold make_string_field in refl;
            })),
    )
