-- ===== src/Protocol/FieldList/Values.antt =====
-- Fields as values: integers and text in a field, and the search by id.
use slopline.Base.{
  ltb, lt→ltb, le→ltb, leb→le, ℕ, ◌%◌, ◌^◌, none, some, [], ◌∷◌, ◌++◌, leb, if◌then◌else◌, length,
  ok, ◌≡◌, ◌≢◌, inl, inr, refl, ap, ◌∙◌, arith, ℤ, pos, negsuc, to_word, of_word-to_word, IsInt,
  Bool-cases, All, ne→==, eq→==,
}
use slopline.Core.Endian.{write_u16be, write_u32be}
use slopline.Core.Endian.Laws.{read-write_u16be, read-write_u32be}
use slopline.Protocol.FieldList.{
  Field, FieldList, find_field, make_integer_field, decode_integer_field, fits_u16,
}

-- How many bytes an integer takes in a field: two from 0 to 65535, four otherwise.
abbrev pub field_size : ℤ → ℕ
field_size (pos n) = if ltb n (2 ^ 16) then 2 else 4
field_size (negsuc n) = 4

-- A 32-bit integer put into a field is read back, under its id, and takes two bytes exactly for 0 to
-- 65535, and four otherwise.
pub decode-make_integer_field :
    (id : ℕ) (value : ℤ)
    → IsInt (2 ^ 31) value
    → (decode_integer_field (make_integer_field id value) ≡ ok value)
      × ((make_integer_field id value).id ≡ id)
      × (length (make_integer_field id value).content ≡ field_size value)
unfolding make_integer_field decode_integer_field write_u16be write_u32be fits_u16
decode-make_integer_field id (pos n) h = elim (Bool-cases (leb n 0xffff)) [
  | inl small ↦ rw small (
    ap (λ m. ok (pos m)) (read-write_u16be (n % 2 ^ 16) (omega arith) ∙ ground arith),
    refl,
    rw (lt→ltb n (2 ^ 16) (omega (arith, leb→le n 0xffff small))) refl,
  )
  | inr large ↦ rw large (
    rw (read-write_u32be (n % 2 ^ 32) (omega arith)) (ap ok (of_word-to_word (2 ^ 31) (pos n) h)),
    refl,
    rw (le→ltb n (2 ^ 16) (ground (arith, large))) refl,
  )
]
decode-make_integer_field id (negsuc n) h = (
  rw (read-write_u32be (to_word (2 ^ 32) (negsuc n)) (omega arith))
      (ap ok (of_word-to_word (2 ^ 31) (negsuc n) h)),
  refl,
  refl,
)

-- `find_field` answers with the first field of that id, and with nothing exactly if there is none.
pub find_field_first :
    (front : FieldList) (field : Field) (rest : FieldList)
    → All (λ f. f.id ≢ field.id) front
    → find_field (front ++ (field ∷ rest)) field.id ≡ some field
unfolding find_field
find_field_first [] field rest h = rw (eq→== field.id field.id refl)
find_field_first (f ∷ front) field rest h =
    rw (ne→== f.id field.id h.0) (find_field_first front field rest h.1)

pub find_field-none :
    (list : FieldList) (id : ℕ) → All (λ f. f.id ≢ id) list → find_field list id ≡ none
unfolding find_field
find_field-none [] id h = refl
find_field-none (f ∷ list) id h = rw (ne→== f.id id h.0) (find_field-none list id h.1)
