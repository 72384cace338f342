-- ===== src/Protocol/FieldList.antt =====
-- src/hotline/protocol/include/hotline/protocol/field_list.h and src/field_list.cpp: a transaction
-- body is a counted list of fields, each an id and up to 65535 bytes.
pub mod RoundTrip
pub mod Values
use slopline.Base.{
  ℕ, zero, suc, ◌+◌, ◌%◌, ◌^◌, ◌<◌, ◌≤◌, Bool, true, false, ◌&&◌, Option, none, some, List, [], ◌∷◌,
  ◌++◌, ltb, leb, ◌==◌, if◌then◌else◌, length, get_or, take, subspan, All, Expected, ok, err, ◌>>=◌,
  ℤ, pos, negsuc, to_word, of_word,
}
use slopline.Core.Errors.{DecodeError, EncodeError, take_span, expect_end}
use slopline.Core.Endian.{IsByte, read_u16be, read_u32be, write_u16be, write_u32be}
use slopline.Core.Sequence.{encode_each, decode_each}
use slopline.Protocol.Constants.{max_field_count, max_field_data_size}

pub record Field : Type 0 where
  pub id : ℕ
  pub content : List ℕ

-- The struct has the one member `fields`.
abbrev pub FieldList : Type 0
FieldList = List Field

-- One round of the loop of `encode_field_list`: the bytes appended for a field.
pub encode_field : Field → Expected EncodeError (List ℕ)
encode_field field =
    if ltb max_field_data_size (length field.content)
    then err EncodeError.element_too_large
    else ok (write_u16be field.id ++ (write_u16be (length field.content % 2 ^ 16) ++ field.content))

pub encode_field_list : FieldList → Expected EncodeError (List ℕ)
encode_field_list fields =
    if ltb max_field_count (length fields) then err EncodeError.count_too_large else do
      body ← encode_each encode_field fields
      ok (write_u16be (length fields % 2 ^ 16) ++ body)

-- One round of the loop of `decode_field_list`: a field, and the bytes behind it.
unfoldable pub decode_field : List ℕ → Expected DecodeError (Field × List ℕ)
decode_field bytes = do
  (head, bytes) ← take_span 4 bytes
  (content, bytes) ← take_span (read_u16be (subspan 2 2 head)) bytes
  ok (record { id = read_u16be (take 2 head); content = content }, bytes)

unfoldable pub decode_field_list : List ℕ → Expected DecodeError FieldList
decode_field_list bytes = do
  (head, bytes) ← take_span 2 bytes
  (fields, rest) ← decode_each decode_field (read_u16be head) bytes
  _ ← expect_end rest
  ok fields

unfoldable pub find_field : FieldList → ℕ → Option Field
find_field [] id = none
find_field (field ∷ fields) id = if field.id == id then some field else find_field fields id

unfoldable pub field_data : FieldList → ℕ → List ℕ
field_data list id = elim (find_field list id) [ none ↦ [] | some field ↦ field.content ]

-- `value >= 0 && value <= 0xFFFF`.
unfoldable pub fits_u16 : ℤ → Bool
fits_u16 (pos n) = leb n 0xffff
fits_u16 (negsuc n) = false

pub make_integer_field : ℕ → ℤ → Field
unfolding fits_u16
make_integer_field id value =
    if fits_u16 value
    then record { id = id; content = write_u16be (to_word (2 ^ 16) value) }
    else record { id = id; content = write_u32be (to_word (2 ^ 32) value) }

pub decode_integer_field : Field → Expected DecodeError ℤ
decode_integer_field field =
    if length field.content == 1
    then ok (pos (get_or field.content 0 0))
    else if length field.content == 2
    then ok (pos (read_u16be field.content))
    else if length field.content == 4
    then ok (of_word (2 ^ 31) (read_u32be field.content))
    else err DecodeError.invalid_integer_field_size

unfoldable pub make_string_field : ℕ → List ℕ → Field
make_string_field id text = record { id = id; content = text }

pub decode_string_field : Field → List ℕ
decode_string_field field = field.content

-- The fields that the wire can hold.
abbrev pub IsField : Field → Type 0
IsField field = (field.id < 2 ^ 16) × (length field.content ≤ max_field_data_size)
