-- ===== src/Protocol/FieldList/RoundTrip.antt =====
-- What the field-list codec writes it reads back, and the other way round.
use slopline.Base.{
  ℕ, ◌%◌, ◌^◌, ◌≤◌, List, [], ◌++◌, le→ltb, length, take, subspan, All, ok, ◌≡◌, refl, sym, ap, ap₂,
  ◌∙◌, arith, append-nil, inl, inr, Expected-cases, ok-injective, All-left, All-right, All-take,
  All-drop, subst,
}
use slopline.Core.Errors.{
  take_span, expect_end, take_span-append, take_span-eq-ok, expect_end-eq-ok,
}
use slopline.Core.Endian.{IsByte, read_u16be, write_u16be}
use slopline.Core.Endian.Laws.{read-write_u16be, two_bytes, four_bytes, read_u16be-lt}
use slopline.Core.Sequence.{decode_each}
use slopline.Core.Sequence.Codec.{
  IsCodec, IsCanonical, written_each, encode_each_lem, decode_each_lem, decode_each_determines,
}
use slopline.Protocol.Constants.{max_field_count, max_field_data_size}
use slopline.Protocol.FieldList.{
  Field, FieldList, IsField, encode_field, encode_field_list, decode_field, decode_field_list,
}
use native.Mathlib.Nat.{mod-eq_of_lt}

-- The bytes of a field, and of a list.
abbrev pub field_bytes : Field → List ℕ
field_bytes field =
    write_u16be field.id ++ (write_u16be (length field.content % 2 ^ 16) ++ field.content)

abbrev pub list_bytes : FieldList → List ℕ
list_bytes fields = write_u16be (length fields % 2 ^ 16) ++ written_each field_bytes fields

decode-field_bytes :
    (field : Field) (rest : List ℕ)
    → IsField field
    → decode_field (field_bytes field ++ rest) ≡ ok (field, rest)
unfolding decode_field write_u16be
decode-field_bytes field rest (id_fits, size_fits) =
    let size : ℕ = length field.content % 2 ^ 16 in
    let whole : size ≡ length field.content = mod-eq_of_lt (omega arith) in
    rw
      (
        take_span-append 4 (write_u16be field.id ++ write_u16be size) (field.content ++ rest) refl,
        read-write_u16be size (omega arith),
        take_span-append size field.content rest (sym whole),
        read-write_u16be field.id id_fits,
      )
      refl

-- The field that its header and content make, written again.
field_inv :
    (bytes head behind content rest : List ℕ)
    → All IsByte bytes
    → bytes ≡ head ++ behind
    → length head ≡ 4
    → (behind ≡ content ++ rest) × (length content ≡ read_u16be (subspan 2 2 head))
    → let field : Field = record { id = read_u16be (take 2 head); content = content } in
      (bytes ≡ field_bytes field ++ rest) × IsField field
unfolding write_u16be
field_inv bytes head behind content rest h front size (tail, content_size) =
    let is_head : All IsByte head = All-left IsByte head behind (rw front at h) in
    let size_lt =
      read_u16be-lt (subspan 2 2 head) (All-take IsByte 2 _ (All-drop IsByte 2 head is_head)) in
    let id_lt = read_u16be-lt (take 2 head) (All-take IsByte 2 head is_head) in
    let whole : length content % 2 ^ 16 ≡ read_u16be (subspan 2 2 head) = omega (arith, size_lt) in
    (
      front ∙ ap₂ ◌++◌ (sym (four_bytes head size is_head)) tail ∙ rw whole,
      omega (arith, id_lt, size_lt),
    )

decode_field_inv :
    (bytes : List ℕ) (field : Field) (rest : List ℕ)
    → All IsByte bytes
    → decode_field bytes ≡ ok (field, rest)
    → (bytes ≡ field_bytes field ++ rest) × IsField field
unfolding decode_field
decode_field_inv bytes field rest h e = elim (Expected-cases (take_span 4 bytes)) [
  | inr (x, d) ↦ absurd (cc (rw d at e))
  | inl ((head, behind), d) ↦
      let (front, size) = take_span-eq-ok 4 bytes head behind d in
      elim (Expected-cases (take_span (read_u16be (subspan 2 2 head)) behind)) [
        | inr (x, f) ↦ absurd (cc (rw (d, f) at e))
        | inl ((content, r), f) ↦
            subst (λ p. (bytes ≡ field_bytes p.0 ++ p.1) × IsField p.0)
              (ok-injective (rw (d, f) at e))
              (field_inv bytes head behind content r h front size
                (take_span-eq-ok _ behind content r f))
      ]
]

pub IsField-canonical : IsCanonical encode_field decode_field IsField field_bytes
IsField-canonical = record { determines = decode_field_inv }

pub IsField-codec : IsCodec encode_field decode_field IsField field_bytes
unfolding encode_field
IsField-codec = record {
  writes = λ field h. rw (le→ltb max_field_data_size (length field.content) h.1);
  reads = decode-field_bytes;
}

pub encode_field_list_lem :
    (fields : FieldList)
    → All IsField fields
    → length fields ≤ max_field_count
    → encode_field_list fields ≡ ok (list_bytes fields)
unfolding encode_field_list
encode_field_list_lem fields h few =
    rw (le→ltb max_field_count (length fields) few, encode_each_lem IsField-codec fields h)

-- Every list of at most 65535 fields, each of at most 65535 bytes and with a 16-bit id, is
-- encoded, and the decoder gives the list back from those bytes.
pub decode-encode_field_list :
    (fields : FieldList)
    → All IsField fields
    → length fields ≤ max_field_count
    → (bytes : List ℕ) × (encode_field_list fields ≡ ok bytes)
      × (decode_field_list bytes ≡ ok fields)
decode-encode_field_list fields h few =
    (list_bytes fields, encode_field_list_lem fields h few, back)
  where
    count : ℕ
    count = length fields % 2 ^ 16

    all_read :
        decode_each decode_field (length fields) (written_each field_bytes fields) ≡ ok (fields, [])
    all_read = rw (append-nil) at (decode_each_lem IsField-codec fields [] h)

    back : decode_field_list (list_bytes fields) ≡ ok fields
    back =
        unfold decode_field_list expect_end in
        rw
          (
            take_span-append 2 (write_u16be count) (written_each field_bytes fields)
                (unfold write_u16be in refl),
            read-write_u16be count (omega arith),
            mod-eq_of_lt {n = length fields} {m = 2 ^ 16} (omega arith),
            all_read,
          )
          refl

list_inv :
    (bytes head behind : List ℕ) (fields : FieldList) (rest : List ℕ)
    → All IsByte bytes
    → (bytes ≡ head ++ behind) × (length head ≡ 2)
    → decode_each decode_field (read_u16be head) behind ≡ ok (fields, rest)
    → rest ≡ []
    → (encode_field_list fields ≡ ok bytes) × All IsField fields
list_inv bytes head behind fields rest h (front, size) e end =
    let is_bytes = rw front at h in
    let is_head : All IsByte head = All-left IsByte head behind is_bytes in
    let (body, count, all) =
      decode_each_determines IsField-canonical _ behind fields rest
        (All-right IsByte head behind is_bytes) e in
    let count_lt = read_u16be-lt head is_head in
    let whole : length fields % 2 ^ 16 ≡ read_u16be head = omega arith in
    let same : list_bytes fields ≡ bytes =
      ap₂ ◌++◌ (ap write_u16be whole ∙ two_bytes head size is_head)
        (sym (append-nil _) ∙ ap (◌++◌ (written_each field_bytes fields)) (sym end) ∙ sym body)
      ∙ sym front in
    (encode_field_list_lem fields all (omega arith) ∙ ap ok same, all)

-- The decoder accepts no other input: whatever bytes it accepts are what the encoder writes for the
-- returned list, whose fields are within the format's limits.
pub encode-decode_field_list :
    (bytes : List ℕ) (fields : FieldList)
    → All IsByte bytes
    → decode_field_list bytes ≡ ok fields
    → (encode_field_list fields ≡ ok bytes) × All IsField fields
unfolding decode_field_list
encode-decode_field_list bytes fields h e = elim (Expected-cases (take_span 2 bytes)) [
  | inr (x, d) ↦ absurd (cc (rw d at e))
  | inl ((head, behind), d) ↦
      elim (Expected-cases (decode_each decode_field (read_u16be head) behind)) [
        | inr (x, f) ↦ absurd (cc (rw (d, f) at e))
        | inl ((found, rest), f) ↦ elim (Expected-cases (expect_end rest)) [
          | inr (x, g) ↦ absurd (cc (rw (d, f, g) at e))
          | inl (tt, g) ↦
              subst (λ p. (encode_field_list p ≡ ok bytes) × All IsField p)
                (ok-injective (rw (d, f, g) at e))
                (list_inv bytes head behind found rest h (take_span-eq-ok 2 bytes head behind d) f
                  (expect_end-eq-ok rest g))
        ]
      ]
]
