-- ===== src/Core/Ivar.antt =====
-- src/appwarrior/core/include/appwarrior/core/ivar_array.h and src/ivar_array.cpp: the decoder of a
-- flattened array of items of any size.
pub mod Order
pub mod Entries
pub mod Slices
use slopline.Base.{
  ℕ, zero, suc, ◌+◌, ◌-◌, ◌*◌, List, [], ◌∷◌, Option, none, some, ltb, ◌==◌, not, ◌||◌,
  if◌then◌else◌, length, take, drop, subspan, bit_and, Expected, ok, err, ◌>>=◌,
}
use slopline.Core.Endian.{read_u32be, four_cc}

abbrev pub format_tag : ℕ
format_tag = four_cc b'I' b'V' b'A' b'1'

-- aw::ivar::DecodeError.
pub data ArrayError : Type 0 where
  truncated wrong_format_tag impossible_item_count offset_out_of_range : ArrayError

pub record Item : Type 0 where
  pub id : ℕ
  pub content : List ℕ

pub record Array : Type 0 where
  pub text_encoding : ℕ
  pub items : List Item

-- The first pass, over `n` entries of the table: no offset below the one before or beyond the data.
unfoldable pub collect_offsets : ℕ → List ℕ → ℕ → ℕ → Expected ArrayError (List ℕ)
collect_offsets zero table size previous_offset = ok []
collect_offsets (suc n) table size previous_offset =
    let offset = read_u32be (subspan 4 4 table) in
    if ltb offset previous_offset || ltb size offset
    then err ArrayError.offset_out_of_range
    else (collect_offsets n (drop 8 table) size offset >>= λ offsets. ok (offset ∷ offsets))

-- The second pass, from the offset `begin` and the offsets behind it.
unfoldable pub slice_items : List ℕ → ℕ → List ℕ → List ℕ → List Item
slice_items [] begin table bytes = []
slice_items (end ∷ offsets) begin table bytes =
    record { id = read_u32be (take 4 table); content = subspan begin (end - begin) bytes }
    ∷ slice_items offsets end (drop 8 table) bytes

-- There is at least one offset.
unfoldable pub sliced : List ℕ → List ℕ → List ℕ → List Item
sliced [] table bytes = []
sliced (begin ∷ offsets) table bytes = slice_items offsets begin table bytes

unfoldable pub decode_table : List ℕ → ℕ → Expected ArrayError Array
decode_table bytes item_count =
    let table_size = (item_count + 1) * 8 in
    let table = subspan 16 table_size bytes in
    let content = drop (16 + table_size) bytes in
    if ltb (length bytes) (16 + table_size)
    then err ArrayError.truncated
    else (collect_offsets (suc item_count) table (length content) 0 >>= λ offsets. ok (record {
      text_encoding = read_u32be (subspan 8 4 bytes);
      items = sliced offsets table content;
    }))

unfoldable pub decode : List ℕ → Expected ArrayError Array
decode bytes =
    if ltb (length bytes) 24
    then err ArrayError.truncated
    else if not (read_u32be (take 4 bytes) == format_tag)
    then err ArrayError.wrong_format_tag
    else if not (bit_and (read_u32be (subspan 12 4 bytes)) 0xff00_0000 == 0)
    then err ArrayError.impossible_item_count
    else decode_table bytes (read_u32be (subspan 12 4 bytes))

find_item : List Item → ℕ → Option Item
find_item [] id = none
find_item (item ∷ items) id = if item.id == id then some item else find_item items id

pub find : Array → ℕ → Option Item
unfolding find_item
find array id = find_item array.items id

pub item_data : Array → ℕ → List ℕ
item_data array id = elim (find array id) [ none ↦ [] | some item ↦ item.content ]
