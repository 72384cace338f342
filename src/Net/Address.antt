-- ===== src/Net/Address.antt =====
-- IpAddress of src/appwarrior/net/include/appwarrior/net/address.h and src/address.cpp: how an
-- address and its port are read from text. The printing is in Net/Address/Print.antt.
pub mod Print
pub mod Digits
pub mod Search
pub mod Host
pub mod RoundTrip
pub mod Outcomes
pub mod Octets
pub mod Bounds
use slopline.Base.{
  ℕ, zero, suc, ◌+◌, ◌-◌, ◌*◌, ◌/◌, ◌%◌, ◌^◌, bit_or, Bool, true, false, not, ◌&&◌, ◌||◌, List, [],
  ◌∷◌, ◌++◌, Option, none, some, length, take, drop, set, replicate, all, is_empty, ltb, leb, ◌==◌,
  if◌then◌else◌, Expected, ok, err, ◌>>=◌,
}
use slopline.Net.Connection.{NetError}
use mathlib.Core.Option

pub data Family : Type 0 where
  ipv4 ipv6 : Family

pub record IpAddress : Type 0 where
  pub family : Family
  pub bytes : List ℕ
  pub port : ℕ
  pub scope_id : ℕ

-- The constructor of an IPv4 address: the twelve last bytes are zero.
unfoldable pub new_address : List ℕ → ℕ → IpAddress
new_address octets port = record {
  family = Family.ipv4;
  bytes = octets ++ replicate 12 0;
  port = port;
  scope_id = 0;
}

unfoldable pub ipv6_address : List ℕ → ℕ → IpAddress
ipv6_address bytes port = record { family = Family.ipv6; bytes = bytes; port = port; scope_id = 0 }

-- `find` and `rfind` of a character, and `starts_with`.
unfoldable pub find : ℕ → List ℕ → Option ℕ
find c [] = none
find c (x ∷ xs) = if x == c then some 0 else Option.map suc (find c xs)

unfoldable pub rfind : ℕ → List ℕ → Option ℕ
rfind c [] = none
rfind c (x ∷ xs) = elim (rfind c xs) [
  | some i ↦ some (suc i)
  | none ↦ if x == c then some 0 else none
]

unfoldable pub starts_with : ℕ → List ℕ → Bool
starts_with c [] = false
starts_with c (x ∷ xs) = x == c

-- `find` of two colons.
unfoldable pub find_compression : List ℕ → Option ℕ
find_compression [] = none
find_compression (x ∷ xs) =
    if x == b':' && starts_with b':' xs then some 0 else Option.map suc (find_compression xs)

unfoldable pub is_digit : ℕ → Bool
is_digit c = leb b'0' c && leb c b'9'

-- The digits in front and what is behind them. That is `std::from_chars` on at most five characters,
-- of which the value cannot be too large; without a digit it stops at the first character.
unfoldable pub from_chars : ℕ → List ℕ → ℕ × List ℕ
from_chars value [] = (value, [])
from_chars value (c ∷ cs) =
    if is_digit c then from_chars (value * 10 + (c - b'0')) cs else (value, c ∷ cs)

unfoldable pub parse_port : List ℕ → Option ℕ
parse_port text =
    if is_empty text || ltb 5 (length text)
    then none
    else (let (out, rest) = from_chars 0 text in
        if is_empty rest && leb out 65535 then some out else none)

-- The locals of `parse_ipv4_host`, and what its loop does with one character.
pub record HostState : Type 0 where
  pub octets : List ℕ
  pub octet : ℕ
  pub value : ℕ
  pub in_number : Bool

abbrev pub first_state : HostState
first_state = record { octets = replicate 4 0; octet = 0; value = 0; in_number = false }

unfoldable pub on_dot : HostState → Option HostState
on_dot state =
    if not state.in_number || leb 3 state.octet
    then none
    else some (record {
      octets = set state.octets state.octet (state.value % 2 ^ 8);
      octet = state.octet + 1;
      value = 0;
      in_number = false;
    })

unfoldable pub on_digit : HostState → ℕ → Option HostState
on_digit state digit =
    let value = state.value * 10 + digit in
    if ltb 255 value
    then none
    else some
        (record { octets = state.octets; octet = state.octet; value = value; in_number = true })

unfoldable pub on_character : HostState → ℕ → Option HostState
on_character state c =
    if c == b'.' then on_dot state else if is_digit c then on_digit state (c - b'0') else none

unfoldable pub host_loop : HostState → List ℕ → Option HostState
host_loop state [] = some state
host_loop state (c ∷ cs) = elim (on_character state c) [
  | none ↦ none
  | some next ↦ host_loop next cs
]

-- Behind the loop.
unfoldable pub last_octet : HostState → Option (List ℕ)
last_octet state =
    if not state.in_number || not (state.octet == 3)
    then none
    else some (set state.octets 3 (state.value % 2 ^ 8))

unfoldable pub parse_ipv4_host : List ℕ → Option (List ℕ)
parse_ipv4_host host = elim (host_loop first_state host) [
  | none ↦ none
  | some state ↦ last_octet state
]

-- No value stands for -1.
unfoldable pub hex_value : ℕ → Option ℕ
hex_value c =
    if is_digit c
    then some (c - b'0')
    else if leb b'a' c && leb c b'f'
    then some (c - b'a' + 10)
    else if leb b'A' c && leb c b'F'
    then some (c - b'A' + 10)
    else none

unfoldable pub group_value : ℕ → List ℕ → Option ℕ
group_value value [] = some value
group_value value (c ∷ cs) = elim (hex_value c) [
  | none ↦ none
  | some nibble ↦ group_value (bit_or (value * 2 ^ 4) nibble % 2 ^ 16) cs
]

-- The lambda `parse_groups` behind its first test: `part` begins at `start`, and `groups` are the
-- first `count` entries of the array. The test of `count` stops the loop in the ninth round at the
-- latest, so nine rounds of fuel are enough.
unfoldable pub groups_loop : ℕ → List ℕ → List ℕ → Option (List ℕ)
groups_loop zero part groups = none
groups_loop (suc fuel) part groups =
    let colon = find b':' part in
    let group : List ℕ = elim colon [ none ↦ part | some i ↦ take i part ] in
    if is_empty group || ltb 4 (length group) || leb 8 (length groups)
    then none
    else elim (group_value 0 group) [
      | none ↦ none
      | some value ↦ elim colon [
        | none ↦ some (groups ++ (value ∷ []))
        | some i ↦
            let rest = drop (suc i) part in
            elim (is_empty rest) [
              | true ↦ none
              | false ↦ groups_loop fuel rest (groups ++ (value ∷ []))
            ]
      ]
    ]

unfoldable pub parse_groups : List ℕ → Option (List ℕ)
parse_groups part = if is_empty part then some [] else groups_loop 9 part []

-- The lambda `emit`, for every group.
unfoldable pub emit : List ℕ → List ℕ
emit [] = []
emit (group ∷ groups) = group / 2 ^ 8 % 2 ^ 8 ∷ group % 2 ^ 8 ∷ emit groups

unfoldable pub expand : List ℕ → List ℕ → Option (List ℕ)
expand head_groups tail_groups =
    let count = length head_groups + length tail_groups in
    if ltb 7 count
    then none
    else some (emit (head_groups ++ (replicate (8 - count) 0 ++ tail_groups)))

unfoldable pub parse_compressed : List ℕ → List ℕ → Option (List ℕ)
parse_compressed head tail = elim (parse_groups head) [
  | none ↦ none
  | some head_groups ↦ elim (parse_groups tail) [
    | none ↦ none
    | some tail_groups ↦ expand head_groups tail_groups
  ]
]

unfoldable pub parse_ipv6_host : List ℕ → Option (List ℕ)
parse_ipv6_host host = elim (find_compression host) [
  | some compression ↦ parse_compressed (take compression host) (drop (compression + 2) host)
  | none ↦ elim (parse_groups host) [
    | none ↦ none
    | some groups ↦ if length groups == 8 then some (emit groups) else none
  ]
]

-- A parser that fails has `invalid_argument` reported.
unfoldable pub checked {ℓ} : {A : Type ℓ} → Option A → Expected NetError A
checked none = err NetError.invalid_argument
checked (some a) = ok a

-- Behind the closing bracket.
unfoldable pub bracketed_port : List ℕ → Option ℕ
bracketed_port remainder =
    if is_empty remainder
    then some 0
    else if starts_with b':' remainder
    then parse_port (drop 1 remainder)
    else none

unfoldable pub from_bracketed : List ℕ → Expected NetError IpAddress
from_bracketed text = do
  close ← checked (find b']' text)
  port ← checked (bracketed_port (drop (close + 1) text))
  bytes ← checked (parse_ipv6_host (take (close - 1) (drop 1 text)))
  ok (ipv6_address bytes port)

-- The text behind the last colon is a port only if it consists of digits and no other colon stands
-- before it.
unfoldable pub is_port : ℕ → List ℕ → Bool
is_port colon text =
    let suffix = drop (colon + 1) text in
    not (is_empty suffix)
    && (all is_digit suffix && elim (find b':' text) [ none ↦ false | some i ↦ i == colon ])

unfoldable pub split_port : List ℕ → Expected NetError (List ℕ × ℕ)
split_port text = elim (rfind b':' text) [
  | none ↦ ok (text, 0)
  | some colon ↦
      if is_port colon text
      then (do port ← checked (parse_port (drop (colon + 1) text)); ok (take colon text, port))
      else ok (text, 0)
]

unfoldable pub from_host : List ℕ → ℕ → Expected NetError IpAddress
from_host host port = elim (find b'.' host) [
  | some i ↦ do octets ← checked (parse_ipv4_host host); ok (new_address octets port)
  | none ↦ do bytes ← checked (parse_ipv6_host host); ok (ipv6_address bytes port)
]

unfoldable pub from_text : List ℕ → Expected NetError IpAddress
from_text text =
    if starts_with b'[' text
    then from_bracketed text
    else (do (host, port) ← split_port text; from_host host port)
