-- ===== src/Protocol/Tracker.antt =====
-- src/hotline/protocol/include/hotline/protocol/tracker.h and src/tracker.cpp: how a server
-- registers with a tracker, and how a client asks it.
pub mod Entries
pub mod Messages
pub mod Handshake
use slopline.Base.{
  ℕ, ◌+◌, ◌-◌, ◌%◌, ◌^◌, ◌<◌, ◌≤◌, Bool, true, false, ◌||◌, List, [], ◌∷◌, ◌++◌, replicate, ltb,
  leb, ◌==◌, if◌then◌else◌, length, take, drop, subspan, get_or, min, Expected, ok, err, ◌>>=◌,
}
use slopline.Core.Errors.{DecodeError, EncodeError, guard, take_span, expect_end, exact_size}
use slopline.Core.Endian.{read_u16be, read_u32be, write_u16be, write_u32be, four_cc}
use slopline.Core.Sequence.{decode_each, encode_each}
use slopline.Protocol.Constants.{max_field_count, max_field_data_size}

abbrev pub tracker_protocol_tag : ℕ
tracker_protocol_tag = four_cc b'H' b'T' b'R' b'K'

-- The length byte and the text; and the text behind a length byte, with what is left.
unfoldable pub append_pstring : List ℕ → List ℕ
append_pstring text = length text % 2 ^ 8 ∷ text

unfoldable pub read_pstring : List ℕ → Expected DecodeError (List ℕ × List ℕ)
read_pstring bytes = do (head, bytes) ← take_span 1 bytes; take_span (get_or head 0 0) bytes

pub record TrackerServerEntry : Type 0 where
  pub address : List ℕ
  pub port : ℕ
  pub user_count : ℕ
  pub flags : ℕ
  pub name : List ℕ
  pub description : List ℕ

unfoldable pub append_server_entry : TrackerServerEntry → List ℕ
append_server_entry entry =
    (entry.address
      ++ (write_u16be entry.port ++ (write_u16be entry.user_count ++ write_u16be entry.flags)))
    ++ (append_pstring entry.name ++ append_pstring entry.description)

-- The test of the callers, and the bytes.
unfoldable pub encode_server_entry : TrackerServerEntry → Expected EncodeError (List ℕ)
encode_server_entry entry =
    if ltb 255 (length entry.name) || ltb 255 (length entry.description)
    then err EncodeError.string_too_long
    else ok (append_server_entry entry)

unfoldable pub read_server_entry : List ℕ → Expected DecodeError (TrackerServerEntry × List ℕ)
read_server_entry bytes = do
  _ ← guard (leb 12 (length bytes)) DecodeError.truncated
  (head, bytes) ← take_span 10 bytes
  (name, bytes) ← read_pstring bytes
  (description, bytes) ← read_pstring bytes
  ok (
    record {
      address = take 4 head;
      port = read_u16be (subspan 4 2 head);
      user_count = read_u16be (subspan 6 2 head);
      flags = read_u16be (subspan 8 2 head);
      name = name;
      description = description;
    },
    bytes,
  )

pub record TrackerRegistration : Type 0 where
  pub port : ℕ
  pub user_count : ℕ
  pub flags : ℕ
  pub pass_id : ℕ
  pub name : List ℕ
  pub description : List ℕ
  pub password : List ℕ

pub record TrackerRegistrationMessage : Type 0 where
  pub type : ℕ
  pub registration : TrackerRegistration

unfoldable pub encode_tracker_registration : ℕ → TrackerRegistration → Expected EncodeError (List ℕ)
encode_tracker_registration type registration =
    if ltb 255 (length registration.name)
      || (ltb 255 (length registration.description) || ltb 255 (length registration.password))
    then err EncodeError.string_too_long
    else ok (
        (write_u16be type
          ++ (write_u16be registration.port
              ++ (write_u16be registration.user_count
                  ++ (write_u16be registration.flags ++ write_u32be registration.pass_id))))
        ++ (append_pstring registration.name
            ++ (append_pstring registration.description ++ append_pstring registration.password)))

-- Types 1 and 2 add and remove a server.
unfoldable pub try_decode_tracker_registration :
    List ℕ → Expected DecodeError TrackerRegistrationMessage
try_decode_tracker_registration bytes = do
  _ ← guard (ltb 14 (length bytes)) DecodeError.truncated
  (head, bytes) ← take_span 12 bytes
  let type = read_u16be (take 2 head)
  _ ← guard (type == 1 || type == 2) DecodeError.wrong_format_tag
  (name, bytes) ← read_pstring bytes
  (description, bytes) ← read_pstring bytes
  (password, bytes) ← read_pstring bytes
  _ ← expect_end bytes
  ok (record {
    type = type;
    registration = record {
      port = read_u16be (subspan 2 2 head);
      user_count = read_u16be (subspan 4 2 head);
      flags = read_u16be (subspan 6 2 head);
      pass_id = read_u32be (subspan 8 4 head);
      name = name;
      description = description;
      password = password;
    };
  })

pub record TrackerServerListMessage : Type 0 where
  pub total_count : ℕ
  pub servers : List TrackerServerEntry

unfoldable pub encode_tracker_server_list : TrackerServerListMessage → Expected EncodeError (List ℕ)
encode_tracker_server_list message =
    if ltb max_field_count (length message.servers) then err EncodeError.count_too_large else do
      entries ← encode_each encode_server_entry message.servers
      let size = 4 + length entries
      if ltb max_field_data_size size
          then err EncodeError.element_too_large
          else ok (
              (write_u16be 1 ++ write_u16be (size % 2 ^ 16))
              ++ ((write_u16be message.total_count ++ write_u16be (length message.servers % 2 ^ 16))
                  ++ entries))

unfoldable pub try_decode_tracker_server_list :
    List ℕ → Expected DecodeError TrackerServerListMessage
try_decode_tracker_server_list bytes = do
  (head, body) ← take_span 4 bytes
  _ ← guard (read_u16be (take 2 head) == 1) DecodeError.wrong_format_tag
  let size = read_u16be (subspan 2 2 head)
  _ ← guard (leb 4 size) DecodeError.truncated
  body ← exact_size size body
  (counts, entries) ← take_span 4 body
  (servers, rest) ← decode_each read_server_entry (read_u16be (subspan 2 2 counts)) entries
  _ ← expect_end rest
  ok (record { total_count = read_u16be (take 2 counts); servers = servers })

pub record TrackerLookupReply : Type 0 where
  pub found : Bool
  pub entry : TrackerServerEntry

-- The members' defaults.
abbrev pub no_entry : TrackerServerEntry
no_entry = record {
  address = 0 ∷ 0 ∷ 0 ∷ 0 ∷ [];
  port = 0;
  user_count = 0;
  flags = 0;
  name = [];
  description = [];
}

-- The bytes of an entry that has been found.
unfoldable pub encode_found : List ℕ → Expected EncodeError (List ℕ)
encode_found entry_bytes =
    if ltb max_field_data_size (length entry_bytes)
    then err EncodeError.element_too_large
    else ok ((write_u16be 4 ++ write_u16be (length entry_bytes % 2 ^ 16)) ++ entry_bytes)

unfoldable pub encode_tracker_lookup_reply : TrackerLookupReply → Expected EncodeError (List ℕ)
encode_tracker_lookup_reply reply =
    if reply.found
    then encode_server_entry reply.entry >>= encode_found
    else ok (write_u16be 5 ++ write_u16be 0)

-- Behind type 5 stands nothing; behind type 4, one entry of the announced size.
unfoldable pub read_not_found : ℕ → List ℕ → Expected DecodeError TrackerLookupReply
read_not_found size body = do
  _ ← guard (size == 0) DecodeError.trailing_bytes
  _ ← expect_end body
  ok (record { found = false; entry = no_entry })

unfoldable pub read_found : ℕ → List ℕ → Expected DecodeError TrackerLookupReply
read_found size body = do
  body ← exact_size size body
  (entry, rest) ← read_server_entry body
  _ ← expect_end rest
  ok (record { found = true; entry = entry })

unfoldable pub try_decode_tracker_lookup_reply : List ℕ → Expected DecodeError TrackerLookupReply
try_decode_tracker_lookup_reply bytes = do
  (head, body) ← take_span 4 bytes
  let type = read_u16be (take 2 head)
  let size = read_u16be (subspan 2 2 head)
  if type == 5
      then read_not_found size body
      else if type == 4
      then read_found size body
      else err DecodeError.wrong_format_tag
