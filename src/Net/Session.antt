-- ===== src/Net/Session.antt =====
-- src/hotline/net/include/hotline/net/session.h and src/session.cpp: the server's half of the login,
-- with src/hotline/protocol/include/hotline/protocol/auth.h. A string is the list of its bytes.
pub mod Login
pub mod States
use slopline.Base.{
  ℕ, ◌+◌, ◌-◌, ◌^◌, Bool, true, false, not, ◌&&◌, ◌||◌, List, [], ◌∷◌, map, Option, none, some,
  Expected, ok, err, ℤ, pos, of_word, ltb, leb, ◌==◌, if◌then◌else◌, equal, is_empty,
}
use slopline.Core.Errors.{DecodeError}
use slopline.Protocol.Constants.TransactionType
use slopline.Protocol.Constants.FieldId
use slopline.Protocol.FieldList.{
  Field, FieldList, decode_field_list, find_field, make_integer_field, make_string_field,
}
use slopline.Protocol.Transaction.{TransactionHeader}
use slopline.Protocol.AccessMask.{AccessMask, no_access}

pub data SessionState : Type 0 where
  fresh awaiting_agreement active closed : SessionState

pub data LoginError : Type 0 where
  unknown_user wrong_password malformed_login : LoginError

pub record UserRecord : Type 0 where
  pub name : List ℕ
  pub password : List ℕ
  pub access : AccessMask

abbrev pub UserLookup : Type 0
UserLookup = List ℕ → Expected LoginError UserRecord

-- An empty std::function is `none`.
pub record SessionConfig : Type 0 where
  pub server_name : List ℕ
  pub server_version : ℕ
  pub community_banner_id : ℕ
  pub lookup_user : Option UserLookup
  pub incorrect_login_message : List ℕ

pub record OutgoingReply : Type 0 where
  pub id : ℕ
  pub error : ℕ
  pub fields : FieldList

pub record ReceivedTransaction : Type 0 where
  pub header : TransactionHeader
  pub content : List ℕ

pub record Session : Type 0 where
  pub config : SessionConfig
  pub state : SessionState
  pub login : List ℕ
  pub access : AccessMask

unfoldable pub new_session : SessionConfig → Session
new_session config = record {
  config = config;
  state = SessionState.fresh;
  login = [];
  access = no_access;
}

-- `~byte` on each byte.
unfoldable pub scramble : List ℕ → List ℕ
scramble [] = []
scramble (byte ∷ bytes) = (255 - byte) ∷ scramble bytes

unfoldable pub normalize_character : ℕ → ℕ
normalize_character character =
    if leb b'A' character && leb character b'Z'
    then character - b'A' + b'a'
    else if character == 13
    then b'-'
    else character

unfoldable pub normalize_login : List ℕ → List ℕ
normalize_login [] = []
normalize_login (character ∷ login) = normalize_character character ∷ normalize_login login

-- "Bad login."
abbrev pub bad_login : List ℕ
bad_login = b'B' ∷ b'a' ∷ b'd' ∷ b' ' ∷ b'l' ∷ b'o' ∷ b'g' ∷ b'i' ∷ b'n' ∷ b'.' ∷ []

abbrev pub is_closed : SessionState → Bool
is_closed SessionState.closed = true
is_closed _ = false

-- The four branches that close the session and report an error.
unfoldable pub refuse : Session → ℕ → List ℕ → Session × Option OutgoingReply
refuse s id text = (
  record s { state = SessionState.closed },
  some (record { id = id; error = 1; fields = make_string_field FieldId.error_text text ∷ [] }),
)

unfoldable pub accept : Session → ℕ → List ℕ → UserRecord → Session × Option OutgoingReply
accept s id name user = (
  record s { state = SessionState.awaiting_agreement; login = name; access = user.access },
  some (record {
    id = id;
    error = 0;
    fields =
        make_integer_field FieldId.vers (pos s.config.server_version)
        ∷ make_integer_field FieldId.community_banner_id
            (of_word (2 ^ 31) s.config.community_banner_id)
        ∷ make_string_field FieldId.server_name s.config.server_name
        ∷ [];
  }),
)

-- `config_.lookup_user ? config_.lookup_user(normalized) : unknown_user`.
unfoldable pub look_up : SessionConfig → List ℕ → Expected LoginError UserRecord
look_up config name = elim config.lookup_user [
  | none ↦ err LoginError.unknown_user
  | some lookup_user ↦ lookup_user name
]

-- The branches behind the lookup.
unfoldable pub login_as :
    Session → ℕ → List ℕ → List ℕ → Expected LoginError UserRecord → Session × Option OutgoingReply
login_as s id name password (err e) = refuse s id s.config.incorrect_login_message
login_as s id name password (ok user) =
    if equal password user.password
    then accept s id name user
    else refuse s id s.config.incorrect_login_message

-- The branches on the two fields.
unfoldable pub login_with :
    Session → ℕ → Option Field → Option Field → Session × Option OutgoingReply
login_with s id (some login_field) (some password_field) =
    if is_empty login_field.content
    then refuse s id bad_login
    else let name = normalize_login (scramble login_field.content) in
      login_as s id name password_field.content (look_up s.config name)
login_with s id _ _ = refuse s id bad_login

unfoldable pub login_fields :
    Session → ℕ → Expected DecodeError FieldList → Session × Option OutgoingReply
login_fields s id (err e) = refuse s id bad_login
login_fields s id (ok fields) =
    login_with s id (find_field fields FieldId.user_login) (find_field fields FieldId.user_password)

-- The transaction `Agreed`.
unfoldable pub agree : Session → Session
agree s = elim s.state [
  | SessionState.awaiting_agreement ↦ record s { state = SessionState.active }
  | _ ↦ s
]

unfoldable pub process : Session → ReceivedTransaction → Session × Option OutgoingReply
process s transaction =
    if not (transaction.header.is_reply == 0) || is_closed s.state
    then (s, none)
    else if transaction.header.type == TransactionType.login
    then login_fields s transaction.header.id (decode_field_list transaction.content)
    else if transaction.header.type == TransactionType.agreed
    then (agree s, none)
    else (s, none)

unfoldable pub close_session : Session → Session
close_session s = record s { state = SessionState.closed }
