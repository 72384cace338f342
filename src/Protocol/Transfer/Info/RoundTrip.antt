-- ===== src/Protocol/Transfer/Info/RoundTrip.antt =====
-- src/hotline/protocol/src/transfer.cpp: the content of an info fork is read back from its bytes.
use slopline.Base.{
  ℕ, ◌+◌, ◌%◌, ◌^◌, ◌≤◌, List, ◌++◌, le→ltb, length, length-append, take, drop, take-append,
  take_all, drop_past, subspan, ok, ◌≡◌, refl, ap, ◌∙◌, arith,
}
use slopline.Core.Endian.{read_u16be, write_u16be, write_u32be}
use slopline.Core.Endian.Laws.{read-write_u16be, read-write_u32be, read_u16be-front}
use slopline.Protocol.Constants.{max_field_data_size}
use slopline.Protocol.Payload.{DateTimeStamp, IsStamp, decode_date_time_stamp}
use native.Mathlib.Nat.{mod-eq_of_lt}
use slopline.Protocol.Transfer.Info.{
  FlatFileInfo, IsInfo, info_front, info_back, stamp_bytes, encode_info_fork, read_info, commented,
  named, try_decode_info_fork,
}

stamp_read :
    (stamp : DateTimeStamp) → IsStamp stamp → decode_date_time_stamp (stamp_bytes stamp) ≡ stamp
unfolding decode_date_time_stamp
stamp_read stamp h =
    unfold write_u16be write_u32be in
    λ i. record {
      year = read-write_u16be stamp.year h.year_fits i;
      msecs = read-write_u16be stamp.msecs h.msecs_fits i;
      seconds = read-write_u32be stamp.seconds h.seconds_fits i;
    }

-- Behind the reserved bytes.
behind :
    (info : FlatFileInfo) (k n : ℕ) (tail : List ℕ)
    → length info.reserved ≡ 32
    → k ≡ 52 + n
    → drop k (info_front info ++ (info.reserved ++ tail)) ≡ drop n tail
unfolding write_u32be
behind info k n tail size e =
    drop_past 20 (32 + n) k (info_front info) (info.reserved ++ tail) refl (omega arith)
    ∙ drop_past 32 n (32 + n) info.reserved tail size refl

-- Behind the name, which starts at 72.
beyond :
    (info : FlatFileInfo) (k n : ℕ) (tail : List ℕ)
    → length info.reserved ≡ 32
    → k ≡ 72 + length info.name + n
    → drop k (info_front info ++ (info.reserved ++ (info_back info ++ (info.name ++ tail))))
      ≡ drop n tail
unfolding write_u16be write_u32be
beyond info k n tail size e =
    behind info k (20 + length info.name + n) (info_back info ++ (info.name ++ tail)) size
      (omega arith)
    ∙ drop_past 20 (length info.name + n) (20 + length info.name + n) (info_back info)
        (info.name ++ tail) refl (omega arith)
    ∙ drop_past (length info.name) n (length info.name + n) info.name tail refl refl

module _ (info : FlatFileInfo) (h : IsInfo info)
    (name_fits : length info.name ≤ max_field_data_size)
    (comment_fits : length info.comment ≤ max_field_data_size) where
  abbrev tail_bytes : List ℕ
  tail_bytes = write_u16be (length info.comment % 2 ^ 16) ++ info.comment

  abbrev info_bytes : List ℕ
  info_bytes = info_front info ++ (info.reserved ++ (info_back info ++ (info.name ++ tail_bytes)))

  length-info_bytes : length info_bytes ≡ 74 + length info.name + length info.comment
  unfolding write_u16be write_u32be
  length-info_bytes = omega (
    arith,
    length-append info.reserved (info_back info ++ (info.name ++ tail_bytes)),
    length-append info.name tail_bytes,
    h.reserved_size,
  )

  name_size_front :
      read_u16be (take 2 (drop 18 (info_back info ++ (info.name ++ tail_bytes))))
      ≡ length info.name % 2 ^ 16
  unfolding write_u16be write_u32be
  name_size_front = read-write_u16be (length info.name % 2 ^ 16) (omega arith)

  name_size_read : read_u16be (subspan 70 2 info_bytes) ≡ length info.name
  name_size_read =
      ap (λ xs. read_u16be (take 2 xs))
        (behind info 70 18 (info_back info ++ (info.name ++ tail_bytes)) h.reserved_size refl)
      ∙ name_size_front
      ∙ mod-eq_of_lt (omega arith)

  comment_size_read :
      read_u16be (subspan (72 + length info.name) 2 info_bytes) ≡ length info.comment
  comment_size_read =
      ap (λ xs. read_u16be (take 2 xs))
        (beyond info (72 + length info.name) 0 tail_bytes h.reserved_size (omega arith))
      ∙ read_u16be-front (length info.comment % 2 ^ 16) info.comment (omega arith)
      ∙ mod-eq_of_lt (omega arith)

  slice :
      (k n m : ℕ)
      → k ≡ 52 + n
      → subspan k m info_bytes ≡ take m (drop n (info_back info ++ (info.name ++ tail_bytes)))
  slice k n m e =
      ap (take m) (behind info k n (info_back info ++ (info.name ++ tail_bytes)) h.reserved_size e)

  comment_read : subspan (72 + length info.name + 2) (length info.comment) info_bytes ≡ info.comment
  comment_read =
      ap (take (length info.comment))
        (beyond info (72 + length info.name + 2) 2 tail_bytes h.reserved_size refl)
      ∙ (unfold write_u16be in take_all (length info.comment) info.comment (omega arith))

  name_read : subspan 72 (length info.name) info_bytes ≡ info.name
  name_read =
      slice 72 20 (length info.name) refl
      ∙ (unfold write_u16be write_u32be in take-append (length info.name) info.name tail_bytes refl)

  reserved_read : subspan 20 32 info_bytes ≡ info.reserved
  reserved_read =
      unfold write_u32be in
      take-append 32 info.reserved (info_back info ++ (info.name ++ tail_bytes)) h.reserved_size

  created_read : decode_date_time_stamp (subspan 52 8 info_bytes) ≡ info.create_date
  unfolding write_u16be write_u32be
  created_read =
      ap decode_date_time_stamp (slice 52 0 8 refl) ∙ stamp_read info.create_date h.create_date_fits

  modified_read : decode_date_time_stamp (subspan 60 8 info_bytes) ≡ info.modify_date
  unfolding write_u16be write_u32be
  modified_read =
      ap decode_date_time_stamp (slice 60 8 8 refl) ∙ stamp_read info.modify_date h.modify_date_fits

  script_read : read_u16be (subspan 68 2 info_bytes) ≡ info.name_script
  unfolding write_u16be write_u32be
  script_read =
      ap read_u16be (slice 68 16 2 refl) ∙ read-write_u16be info.name_script h.name_script_fits

  info_read : read_info info_bytes (length info.name) (length info.comment) ≡ info
  unfolding read_info write_u16be write_u32be
  info_read = λ i. record {
    platform = read-write_u32be info.platform h.platform_fits i;
    type_sig = read-write_u32be info.type_sig h.type_sig_fits i;
    creator_sig = read-write_u32be info.creator_sig h.creator_sig_fits i;
    flags = read-write_u32be info.flags h.flags_fits i;
    platform_flags = read-write_u32be info.platform_flags h.platform_flags_fits i;
    reserved = reserved_read i;
    create_date = created_read i;
    modify_date = modified_read i;
    name_script = script_read i;
    name = name_read i;
    comment = comment_read i;
  }

  named_read : try_decode_info_fork info_bytes ≡ ok info
  unfolding try_decode_info_fork named commented
  named_read =
      let size = length-info_bytes in
      let total : ℕ = 72 + length info.name + 2 + length info.comment in
      rw
        (
          le→ltb (length info_bytes) 72 (omega arith),
          name_size_read,
          le→ltb (length info_bytes) (72 + length info.name + 2) (omega arith),
          comment_size_read,
          le→ltb (length info_bytes) total (omega arith),
          le→ltb total (length info_bytes) (omega arith),
        )
        (ap ok info_read)

-- An info fork whose members fit their types, with 32 reserved bytes and a name and a comment of at
-- most 65535 bytes each, is encoded, and the decoder gives it back from its bytes.
pub decode-encode_info_fork :
    (info : FlatFileInfo)
    → IsInfo info
    → length info.name ≤ max_field_data_size
    → length info.comment ≤ max_field_data_size
    → (bytes : List ℕ) × (encode_info_fork info ≡ ok bytes) × (try_decode_info_fork bytes ≡ ok info)
unfolding encode_info_fork
decode-encode_info_fork info h name_fits comment_fits = (
  info_bytes info h name_fits comment_fits,
  rw
      (
        le→ltb max_field_data_size (length info.name) name_fits,
        le→ltb max_field_data_size (length info.comment) comment_fits,
      )
      refl,
  named_read info h name_fits comment_fits,
)
