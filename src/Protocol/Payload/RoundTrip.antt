-- ===== src/Protocol/Payload/RoundTrip.antt =====
-- The payloads are read back from their bytes, and names that are too long are refused.
use slopline.Base.{
  ℕ, ◌%◌, ◌^◌, ◌<◌, ◌≤◌, List, ◌++◌, le→ltb, lt→ltb, length, ok, err, ℤ, pos, negsuc, to_word,
  of_word-to_word, IsInt, ◌≡◌, refl, sym, ap, arith,
}
use slopline.Core.Errors.{EncodeError, take_span-append, exact_size-eq-ok}
use slopline.Core.Endian.{write_u16be, write_u32be, write_u32le}
use slopline.Core.Endian.Laws.{read-write_u16be, read-write_u32be, read-write_u32le}
use slopline.Protocol.Constants.{max_field_data_size}
use slopline.Protocol.Payload.{
  FileInfo, UserInfo, DateTimeStamp, IsFileInfo, IsUserInfo, IsStamp, encode_file_info,
  try_decode_file_info, encode_user_info, try_decode_user_info, encode_date_time_stamp,
  decode_date_time_stamp, try_decode_date_time_stamp,
}
use native.Mathlib.Nat.{mod-eq_of_lt}

-- A file info is encoded and read back exactly if its name has at most 65535 bytes; a longer name is
-- refused. Its numbers fit in their members.
pub decode-encode_file_info :
    (info : FileInfo)
    → IsFileInfo info
    → ((length info.name ≤ max_field_data_size)
        → (bytes : List ℕ) × (encode_file_info info ≡ ok bytes)
          × (try_decode_file_info bytes ≡ ok info))
      × ((max_field_data_size < length info.name)
          → encode_file_info info ≡ err EncodeError.string_too_long)
unfolding encode_file_info try_decode_file_info write_u16be write_u32be write_u32le
decode-encode_file_info info h =
    let size : ℕ = length info.name % 2 ^ 16 in
    let head : List ℕ =
      write_u32le info.type
      ++ (write_u32le info.creator
          ++ (write_u32be info.file_size
              ++ (write_u32be 0 ++ (write_u16be info.name_script ++ write_u16be size)))) in
    (
      λ small.
          let whole : size ≡ length info.name = mod-eq_of_lt (omega arith) in
          (
            head ++ info.name,
            rw (le→ltb max_field_data_size (length info.name) small) refl,
            rw
                (
                  take_span-append 20 head info.name refl,
                  read-write_u16be size (omega arith),
                  exact_size-eq-ok size info.name (sym whole),
                  read-write_u32le info.type h.type_fits,
                  read-write_u32le info.creator h.creator_fits,
                  read-write_u32be info.file_size h.file_size_fits,
                  read-write_u16be info.name_script h.name_script_fits,
                )
                refl,
          ),
      λ large. rw (lt→ltb max_field_data_size (length info.name) large),
    )

to_word-lt : (a : ℤ) → IsInt (2 ^ 15) a → to_word (2 ^ 16) a < 2 ^ 16
to_word-lt (pos n) h = omega arith
to_word-lt (negsuc n) h = omega arith

-- A user info is encoded and read back exactly if its name has at most 65535 bytes; a longer name is
-- refused. Its numbers fit in their members, the icon's as a signed word.
pub decode-encode_user_info :
    (info : UserInfo)
    → IsUserInfo info
    → ((length info.name ≤ max_field_data_size)
        → (bytes : List ℕ) × (encode_user_info info ≡ ok bytes)
          × (try_decode_user_info bytes ≡ ok info))
      × ((max_field_data_size < length info.name)
          → encode_user_info info ≡ err EncodeError.string_too_long)
unfolding encode_user_info try_decode_user_info write_u16be
decode-encode_user_info info h =
    let size : ℕ = length info.name % 2 ^ 16 in
    let icon : ℕ = to_word (2 ^ 16) info.icon_id in
    let head : List ℕ =
      write_u16be info.id ++ (write_u16be icon ++ (write_u16be info.flags ++ write_u16be size)) in
    (
      λ small.
          let whole : size ≡ length info.name = mod-eq_of_lt (omega arith) in
          (
            head ++ info.name,
            rw (le→ltb max_field_data_size (length info.name) small) refl,
            rw
                (
                  take_span-append 8 head info.name refl,
                  read-write_u16be size (omega arith),
                  exact_size-eq-ok size info.name (sym whole),
                  read-write_u16be info.id h.id_fits,
                  read-write_u16be icon (to_word-lt info.icon_id h.icon_id_fits),
                  read-write_u16be info.flags h.flags_fits,
                )
                (ap (λ (a : ℤ). ok (record info { icon_id = a }))
                  (of_word-to_word (2 ^ 15) info.icon_id h.icon_id_fits)),
          ),
      λ large. rw (lt→ltb max_field_data_size (length info.name) large),
    )

-- A time stamp whose members fit is read back from its eight bytes.
pub try_decode-encode_date_time_stamp :
    (stamp : DateTimeStamp)
    → IsStamp stamp
    → try_decode_date_time_stamp (encode_date_time_stamp stamp) ≡ ok stamp
unfolding try_decode_date_time_stamp encode_date_time_stamp decode_date_time_stamp
try_decode-encode_date_time_stamp stamp h =
    rw
      (exact_size-eq-ok 8
        (write_u16be stamp.year ++ (write_u16be stamp.msecs ++ write_u32be stamp.seconds))
        (unfold write_u16be write_u32be in refl))
      (unfold write_u16be write_u32be in
        λ i. ok (record {
          year = read-write_u16be stamp.year h.year_fits i;
          msecs = read-write_u16be stamp.msecs h.msecs_fits i;
          seconds = read-write_u32be stamp.seconds h.seconds_fits i;
        }))
