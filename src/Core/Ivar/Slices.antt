-- ===== src/Core/Ivar/Slices.antt =====
-- src/appwarrior/core/src/ivar_array.cpp: the items of an array that the decoder accepts.
use slopline.Base.{
  ℕ, suc, ◌+◌, ◌-◌, ◌*◌, ◌≤◌, List, ltb, ltb→le, ◌==◌, Bool-cases, inl, inr, length, take, drop,
  subspan, bit_and, ok, Expected-cases, ok-injective, ◌≡◌, sym, ap, subst, ◌∙◌, arith,
}
use slopline.Core.Endian.{read_u32be}
use slopline.Core.Ivar.{
  Array, collect_offsets, slice_items, sliced, decode_table, decode, format_tag,
}
use slopline.Core.Ivar.Order.{
  Rising, collect_offsets-Rising, last_offset, Rising-last, contents, contents-slice_items,
}
use slopline.Core.Ivar.Entries.{
  offset_at, items_from, offsets_from, collect_offsets-offsets_from, slice_items-items_from,
  last_offset-offsets_from,
}

table-contents :
    (bytes : List ℕ) (count : ℕ) (array : Array)
    → decode_table bytes count ≡ ok array
    → let content = drop (16 + (count + 1) * 8) bytes in
      let first = offset_at bytes 0 in
      let last = offset_at bytes count in
      (16 + (count + 1) * 8 ≤ length bytes)
      × (record {
        text_encoding = read_u32be (subspan 8 4 bytes);
        items = items_from bytes content 0 count;
      }
          ≡ array)
      × (length (items_from bytes content 0 count) ≡ count)
      × (first ≤ last)
      × (last ≤ length content)
      × (contents (items_from bytes content 0 count) ≡ subspan first (last - first) content)
unfolding decode_table sliced
table-contents bytes count array e =
    let size : ℕ = (count + 1) * 8 in
    let table = subspan 16 size bytes in
    let content = drop (16 + size) bytes in
    let begin = offset_at bytes 0 in
    let ends = offsets_from bytes 1 count in
    elim (Bool-cases (ltb (length bytes) (16 + size))) [
      | inl short ↦ absurd (cc (rw short at e))
      | inr whole ↦ elim (Expected-cases (collect_offsets (suc count) table (length content) 0)) [
        | inr (x, f) ↦ absurd (cc (rw (whole, f) at e))
        | inl (offsets, f) ↦
            let listed : offsets ≡ offsets_from bytes 0 (suc count) =
              collect_offsets-offsets_from bytes count (suc count) 0 (length content) 0 offsets
                (omega arith) f in
            let (number, (low, fits, rising)) =
              subst (λ xs. (length xs ≡ suc count) × Rising (length content) 0 xs) listed
                (collect_offsets-Rising (suc count) table (length content) 0 offsets f) in
            let items : slice_items ends begin table content ≡ items_from bytes content 0 count =
              slice_items-items_from bytes count content count 0 (omega arith) in
            let last : last_offset begin ends ≡ offset_at bytes count =
              last_offset-offsets_from bytes count 0 count (omega arith) in
            let (rises, within) = Rising-last (length content) begin ends fits rising in
            let (few, joined) = contents-slice_items ends begin table content fits rising in
            (
              ltb→le (length bytes) (16 + size) whole,
              ap (λ xs. record { text_encoding = read_u32be (subspan 8 4 bytes); items = xs })
                    (sym items ∙ ap (λ xs. sliced xs table content) (sym listed))
                  ∙ ok-injective (rw (whole, f) at e),
              ap length (sym items) ∙ few ∙ omega arith,
              omega arith,
              omega arith,
              ap contents (sym items)
                  ∙ joined
                  ∙ ap (λ (m : ℕ). subspan begin (m - begin) content) last,
            )
      ]
    ]

accepted :
    (bytes : List ℕ) (array : Array)
    → decode bytes ≡ ok array
    → decode_table bytes (read_u32be (subspan 12 4 bytes)) ≡ ok array
unfolding decode
accepted bytes array e = elim (Bool-cases (ltb (length bytes) 24)) [
  | inl short ↦ absurd (cc (rw short at e))
  | inr long ↦ elim (Bool-cases (read_u32be (take 4 bytes) == format_tag)) [
    | inr other ↦ absurd (cc (rw (long, other) at e))
    | inl tagged ↦ elim (Bool-cases (bit_and (read_u32be (subspan 12 4 bytes)) 0xff00_0000 == 0)) [
      | inr many ↦ absurd (cc (rw (long, tagged, many) at e))
      | inl few ↦ rw (long, tagged, few) at e
    ]
  ]
]

-- An array that is accepted holds as many items as its header says, each with the identifier of its
-- entry in the table and the data behind the table from its offset up to that of the next entry. The
-- items lie in the data without a gap or an overlap and within the bounds: joined they are the data
-- from the first offset of the table up to the last.
pub decode-contents :
    (bytes : List ℕ) (array : Array)
    → decode bytes ≡ ok array
    → let count = read_u32be (subspan 12 4 bytes) in
      let content = drop (16 + (count + 1) * 8) bytes in
      let first = offset_at bytes 0 in
      let last = offset_at bytes count in
      (16 + (count + 1) * 8 ≤ length bytes)
      × (array.text_encoding ≡ read_u32be (subspan 8 4 bytes))
      × (array.items ≡ items_from bytes content 0 count)
      × (length array.items ≡ count)
      × (first ≤ last)
      × (last ≤ length content)
      × (contents array.items ≡ subspan first (last - first) content)
decode-contents bytes array e =
    let count = read_u32be (subspan 12 4 bytes) in
    let (whole, same, number, rises, within, joined) =
      table-contents bytes count array (accepted bytes array e) in
    let items = ap (λ (a : Array). a.items) (sym same) in
    (
      whole,
      ap (λ (a : Array). a.text_encoding) (sym same),
      items,
      ap length items ∙ number,
      rises,
      within,
      ap contents items ∙ joined,
    )
