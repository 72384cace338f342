-- ===== src/Core/Ivar/Entries.antt =====
-- src/appwarrior/core/src/ivar_array.cpp: both passes read the entries of the table where the header
-- comment of ivar_array.h places them.
use slopline.Base.{
  ℕ, zero, suc, ◌+◌, ◌-◌, ◌*◌, ◌≤◌, List, [], ◌∷◌, take, drop, drop-drop, subspan, ok, ok-injective,
  ◌≡◌, refl, sym, ap, ap₂, ◌∙◌, arith,
}
use slopline.Core.Endian.{read_u32be}
use slopline.Core.Ivar.{Item, collect_offsets, slice_items}
use slopline.Core.Ivar.Order.{collect_offsets-eq-ok, last_offset}

-- Entry `i` of the table behind the header of 16 bytes: an identifier, and an offset into the data.
abbrev pub id_at : List ℕ → ℕ → ℕ
id_at bytes i = read_u32be (subspan (16 + 8 * i) 4 bytes)

abbrev pub offset_at : List ℕ → ℕ → ℕ
offset_at bytes i = read_u32be (subspan (20 + 8 * i) 4 bytes)

-- The item of an entry reaches from its offset up to that of the next entry.
abbrev pub item_at : List ℕ → List ℕ → ℕ → Item
item_at bytes content i = record {
  id = id_at bytes i;
  content = subspan (offset_at bytes i) (offset_at bytes (i + 1) - offset_at bytes i) content;
}

-- The `n` items from item `i` on, and the `n` offsets from offset `i` on.
abbrev pub items_from : List ℕ → List ℕ → ℕ → ℕ → List Item
items_from bytes content i zero = []
items_from bytes content i (suc n) = item_at bytes content i ∷ items_from bytes content (i + 1) n

abbrev pub offsets_from : List ℕ → ℕ → ℕ → List ℕ
offsets_from bytes i zero = []
offsets_from bytes i (suc n) = offset_at bytes i ∷ offsets_from bytes (i + 1) n

take-drop-take :
    (k n m : ℕ) (xs : List ℕ) → k + n ≤ m → take n (drop k (take m xs)) ≡ take n (drop k xs)
take-drop-take zero zero m xs h = refl
take-drop-take zero (suc n) zero xs h = absurd (omega arith)
take-drop-take zero (suc n) (suc m) [] h = refl
take-drop-take zero (suc n) (suc m) (x ∷ xs) h =
    ap (◌∷◌ x) (take-drop-take zero n m xs (omega arith))
take-drop-take (suc k) n zero xs h = absurd (omega arith)
take-drop-take (suc k) n (suc m) [] h = refl
take-drop-take (suc k) n (suc m) (x ∷ xs) h = take-drop-take k n m xs (omega arith)

-- A part of a part is a part.
subspan-subspan :
    (k n a m : ℕ) (xs : List ℕ) → k + n ≤ m → subspan k n (subspan a m xs) ≡ subspan (a + k) n xs
subspan-subspan k n a m xs h = take-drop-take k n m (drop a xs) h ∙ ap (take n) (drop-drop a k xs)

module _ (bytes : List ℕ) (count : ℕ) where
  -- The table from entry `i` on.
  abbrev table_from : ℕ → List ℕ
  table_from i = drop (8 * i) (subspan 16 ((count + 1) * 8) bytes)

  entry_read :
      (i k : ℕ) → i ≤ count → k ≤ 4 → subspan k 4 (table_from i) ≡ subspan (16 + 8 * i + k) 4 bytes
  entry_read i k h fits =
      ap (take 4) (drop-drop (8 * i) k (subspan 16 ((count + 1) * 8) bytes))
      ∙ subspan-subspan (8 * i + k) 4 16 ((count + 1) * 8) bytes (omega arith)
      ∙ ap (λ (j : ℕ). subspan j 4 bytes) {x = 16 + (8 * i + k)} {y = 16 + 8 * i + k} (omega arith)

  next_entry : (i : ℕ) → drop 8 (table_from i) ≡ table_from (i + 1)
  next_entry i =
      drop-drop (8 * i) 8 (subspan 16 ((count + 1) * 8) bytes)
      ∙ ap (λ (k : ℕ). drop k (subspan 16 ((count + 1) * 8) bytes)) {x = 8 * i + 8}
          {y = 8 * (i + 1)} (omega arith)

  offset_read : (i : ℕ) → i ≤ count → read_u32be (subspan 4 4 (table_from i)) ≡ offset_at bytes i
  offset_read i h = ap read_u32be (
      entry_read i 4 h (omega arith)
      ∙ ap (λ (k : ℕ). subspan k 4 bytes) {x = 16 + 8 * i + 4} {y = 20 + 8 * i} (omega arith))

  pub collect_offsets-offsets_from :
      (n i size previous : ℕ) (offsets : List ℕ)
      → i + n ≤ count + 1
      → collect_offsets n (table_from i) size previous ≡ ok offsets
      → offsets ≡ offsets_from bytes i n
  unfolding collect_offsets
  collect_offsets-offsets_from zero i size previous offsets h e = sym (ok-injective e)
  collect_offsets-offsets_from (suc n) i size previous offsets h e =
      let offset = read_u32be (subspan 4 4 (table_from i)) in
      let (more, same, rises, within, f) =
        collect_offsets-eq-ok n (table_from i) size previous offsets e in
      let next : collect_offsets n (table_from (i + 1)) size offset ≡ ok more =
        ap (λ t. collect_offsets n t size offset) (sym (next_entry i)) ∙ f in
      sym same
      ∙ ap₂ ◌∷◌ (offset_read i (omega arith))
          (collect_offsets-offsets_from n (i + 1) size offset more (omega arith) next)

  pub slice_items-items_from :
      (content : List ℕ) (n i : ℕ)
      → i + n ≤ count
      → slice_items (offsets_from bytes (i + 1) n) (offset_at bytes i) (table_from i) content
        ≡ items_from bytes content i n
  unfolding slice_items
  slice_items-items_from content zero i h = refl
  slice_items-items_from content (suc n) i h =
      let begin = offset_at bytes i in
      let end = offset_at bytes (i + 1) in
      ap₂ (λ id items. record { id = id; content = subspan begin (end - begin) content } ∷ items)
        (ap read_u32be (
          entry_read i 0 (omega arith) (omega arith)
          ∙ ap (λ (k : ℕ). subspan k 4 bytes) {x = 16 + 8 * i + 0} {y = 16 + 8 * i} (omega arith)))
        (ap (λ t. slice_items (offsets_from bytes (i + 1 + 1) n) end t content) (next_entry i)
          ∙ slice_items-items_from content n (i + 1) (omega arith))

pub last_offset-offsets_from :
    (bytes : List ℕ) (n i m : ℕ)
    → m ≡ i + n
    → last_offset (offset_at bytes i) (offsets_from bytes (i + 1) n) ≡ offset_at bytes m
last_offset-offsets_from bytes zero i m e = ap (offset_at bytes) {x = i} {y = m} (omega arith)
last_offset-offsets_from bytes (suc n) i m e =
    last_offset-offsets_from bytes n (i + 1) m (omega arith)
