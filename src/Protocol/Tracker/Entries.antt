-- ===== src/Protocol/Tracker/Entries.antt =====
-- The entries of a tracker's list are read back from their bytes.
use slopline.Base.{
  ℕ, ◌+◌, ◌%◌, ◌^◌, ◌<◌, ◌≤◌, true, false, List, [], ◌∷◌, ◌++◌, le→ltb, le→leb, length,
  length-append, All, ok, ◌≡◌, refl, sym, append_assoc, append-nil, arith,
}
use slopline.Core.Errors.{guard, take_span-append, exact_size-eq-ok, expect_end}
use slopline.Core.Endian.{write_u16be}
use slopline.Core.Endian.Laws.{read-write_u16be}
use slopline.Core.Sequence.{decode_each}
use slopline.Core.Sequence.Codec.{IsCodec, written_each, encode_each_lem, decode_each_lem}
use slopline.Protocol.Constants.{max_field_count, max_field_data_size}
use slopline.Protocol.Tracker.{
  no_entry, encode_found, encode_tracker_lookup_reply, read_not_found, read_found,
  try_decode_tracker_lookup_reply, TrackerServerEntry, TrackerServerListMessage, append_pstring,
  read_pstring, append_server_entry, encode_server_entry, read_server_entry,
  encode_tracker_server_list, try_decode_tracker_server_list,
}
use native.Mathlib.Nat.{mod-eq_of_lt}

pub read-append_pstring :
    (text rest : List ℕ)
    → length text ≤ 255
    → read_pstring (append_pstring text ++ rest) ≡ ok (text, rest)
unfolding read_pstring append_pstring
read-append_pstring text rest h =
    let whole : length text % 2 ^ 8 ≡ length text = mod-eq_of_lt (omega arith) in
    rw
      (
        take_span-append 1 (length text % 2 ^ 8 ∷ []) (text ++ rest) refl,
        take_span-append (length text % 2 ^ 8) text rest (sym whole),
      )
      refl

-- The entries that the wire can hold.
pub record IsEntry (entry : TrackerServerEntry) : Type 0 where
  pub address_size : length entry.address ≡ 4
  pub port_fits : entry.port < 2 ^ 16
  pub user_count_fits : entry.user_count < 2 ^ 16
  pub flags_fits : entry.flags < 2 ^ 16
  pub name_fits : length entry.name ≤ 255
  pub description_fits : length entry.description ≤ 255

-- The entry with the address written out.
read-entry_at :
    (entry : TrackerServerEntry) (address rest : List ℕ)
    → length address ≡ 4
    → IsEntry entry
    → read_server_entry (append_server_entry (record entry { address = address }) ++ rest)
      ≡ ok (record entry { address = address }, rest)
unfolding read_server_entry append_server_entry guard write_u16be
read-entry_at entry (a ∷ b ∷ c ∷ d ∷ []) rest e h =
    let head : List ℕ =
      a
      ∷ b
      ∷ c
      ∷ d
      ∷ (write_u16be entry.port ++ (write_u16be entry.user_count ++ write_u16be entry.flags)) in
    let strings : List ℕ = append_pstring entry.name ++ append_pstring entry.description in
    rw
      (
        append_assoc (append_pstring entry.name) (append_pstring entry.description) rest,
        le→leb 12
            (length
              (head ++ (append_pstring entry.name ++ (append_pstring entry.description ++ rest))))
            (unfold append_pstring in
              omega (arith, length-append entry.name (append_pstring entry.description ++ rest))),
        take_span-append 10 head
            (append_pstring entry.name ++ (append_pstring entry.description ++ rest)) refl,
        read-append_pstring entry.name (append_pstring entry.description ++ rest) h.name_fits,
        read-append_pstring entry.description rest h.description_fits,
        read-write_u16be entry.port h.port_fits,
        read-write_u16be entry.user_count h.user_count_fits,
        read-write_u16be entry.flags h.flags_fits,
      )
      refl
read-entry_at entry [] rest e h = absurd (omega arith)
read-entry_at entry (a ∷ []) rest e h = absurd (omega arith)
read-entry_at entry (a ∷ b ∷ []) rest e h = absurd (omega arith)
read-entry_at entry (a ∷ b ∷ c ∷ []) rest e h = absurd (omega arith)
read-entry_at entry (a ∷ b ∷ c ∷ d ∷ more ∷ others) rest e h = absurd (omega arith)

IsEntry-codec : IsCodec encode_server_entry read_server_entry IsEntry append_server_entry
unfolding encode_server_entry
IsEntry-codec = record {
  writes = λ entry h. rw (
    le→ltb 255 (length entry.name) h.name_fits,
    le→ltb 255 (length entry.description) h.description_fits,
  );
  reads = λ entry rest h. read-entry_at entry entry.address rest h.address_size h;
}

-- The lists of servers that fit in one message.
pub record IsServerList (message : TrackerServerListMessage) : Type 0 where
  pub total_count_fits : message.total_count < 2 ^ 16
  pub few : length message.servers ≤ max_field_count
  pub entries : All IsEntry message.servers
  pub small : 4 + length (written_each append_server_entry message.servers) ≤ max_field_data_size

-- A list of at most 65535 servers, whose names and descriptions have at most 255 bytes and whose
-- entries fit in one message, is encoded, and read back from its bytes.
pub decode-encode_tracker_server_list :
    (message : TrackerServerListMessage)
    → IsServerList message
    → (bytes : List ℕ) × (encode_tracker_server_list message ≡ ok bytes)
      × (try_decode_tracker_server_list bytes ≡ ok message)
unfolding encode_tracker_server_list try_decode_tracker_server_list guard expect_end write_u16be
decode-encode_tracker_server_list message h =
    let entries : List ℕ = written_each append_server_entry message.servers in
    let count : ℕ = length message.servers % 2 ^ 16 in
    let size : ℕ = (4 + length entries) % 2 ^ 16 in
    let whole : count ≡ length message.servers = mod-eq_of_lt (omega (arith, h.few)) in
    let whole_size : size ≡ 4 + length entries = mod-eq_of_lt (omega (arith, h.small)) in
    let head : List ℕ = write_u16be 1 ++ write_u16be size in
    let counts : List ℕ = write_u16be message.total_count ++ write_u16be count in
    let all_read : decode_each read_server_entry (length message.servers) entries
        ≡ ok (message.servers, []) =
      rw (append-nil) at (decode_each_lem IsEntry-codec message.servers [] h.entries) in
    (
      head ++ (counts ++ entries),
      rw
          (
            le→ltb max_field_count (length message.servers) h.few,
            encode_each_lem IsEntry-codec message.servers h.entries,
            le→ltb max_field_data_size (4 + length entries) h.small,
          )
          refl,
      rw
          (
            take_span-append 4 head (counts ++ entries) refl,
            read-write_u16be 1 (omega arith),
            read-write_u16be size (omega arith),
            le→leb 4 size (omega (arith, whole_size)),
            exact_size-eq-ok size (counts ++ entries) (omega (arith, whole_size)),
            take_span-append 4 counts entries refl,
            read-write_u16be count (omega arith),
            whole,
            all_read,
            read-write_u16be message.total_count h.total_count_fits,
          )
          refl,
    )

length-append_server_entry :
    (entry : TrackerServerEntry) → IsEntry entry → length (append_server_entry entry) ≤ 522
unfolding append_server_entry append_pstring write_u16be
length-append_server_entry entry h =
    let tail =
      write_u16be entry.port ++ (write_u16be entry.user_count ++ write_u16be entry.flags) in
    let strings = append_pstring entry.name ++ append_pstring entry.description in
    omega (
      arith,
      length-append (entry.address ++ tail) strings,
      length-append entry.address tail,
      length-append entry.name (append_pstring entry.description),
      h.address_size,
      h.name_fits,
      h.description_fits,
    )

-- Both answers to a lookup are read back: an entry that the wire can hold, and that there is none,
-- which is read with the default entry.
pub decode-encode_tracker_lookup_reply :
    (entry : TrackerServerEntry)
    → IsEntry entry
    → ((bytes : List ℕ) × (encode_tracker_lookup_reply (record { found = true; entry = entry })
          ≡ ok bytes)
        × (try_decode_tracker_lookup_reply bytes ≡ ok (record { found = true; entry = entry })))
      × ((bytes : List ℕ) × (encode_tracker_lookup_reply (record { found = false; entry = entry })
            ≡ ok bytes)
          × (try_decode_tracker_lookup_reply bytes
              ≡ ok (record { found = false; entry = no_entry })))
unfolding encode_tracker_lookup_reply encode_found try_decode_tracker_lookup_reply read_found
    read_not_found guard expect_end write_u16be
decode-encode_tracker_lookup_reply entry h =
    let body : List ℕ = append_server_entry entry in
    let small = length-append_server_entry entry h in
    let size : ℕ = length body % 2 ^ 16 in
    let whole : size ≡ length body = mod-eq_of_lt (omega (arith, small)) in
    let head : List ℕ = write_u16be 4 ++ write_u16be size in
    let read : read_server_entry body ≡ ok (entry, []) =
      rw (append-nil) at (IsEntry-codec.reads entry [] h) in
    (
      (
        head ++ body,
        rw
            (
              IsEntry-codec.writes entry h,
              le→ltb max_field_data_size (length body) (omega (arith, small)),
            )
            refl,
        rw
            (
              take_span-append 4 head body refl,
              read-write_u16be 4 (omega arith),
              read-write_u16be size (omega arith),
              exact_size-eq-ok size body (sym whole),
              read,
            )
            refl,
      ),
      (
        write_u16be 5 ++ write_u16be 0,
        refl,
        rw
            (
              take_span-append 4 (write_u16be 5 ++ write_u16be 0) [] refl,
              read-write_u16be 5 (omega arith),
              read-write_u16be 0 (omega arith),
            )
            refl,
      ),
    )
