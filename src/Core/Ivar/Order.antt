-- ===== src/Core/Ivar/Order.antt =====
-- src/appwarrior/core/src/ivar_array.cpp: the offsets that the first pass accepts rise, and the second
-- pass cuts the data at them.
use slopline.Base.{
  ℕ, zero, suc, ◌+◌, ◌-◌, ◌≤◌, List, [], ◌∷◌, ◌++◌, ltb, ltb→le, Bool-cases, inl, inr, length, take,
  drop, drop-drop, take_all, subspan, ok, Expected-cases, ok-injective, ◌≡◌, refl, sym, ap, subst,
  ◌∙◌, arith,
}
use slopline.Core.Endian.{read_u32be}
use slopline.Core.Ivar.{Item, collect_offsets, slice_items}

-- The offsets rise from one to the next, and stay within the data.
abbrev pub Rising : ℕ → ℕ → List ℕ → Type 0
Rising size previous [] = Unit {0}
Rising size previous (offset ∷ offsets) =
    (previous ≤ offset) × (offset ≤ size) × Rising size offset offsets

-- What one round of the first pass has seen.
pub collect_offsets-eq-ok :
    (n : ℕ) (table : List ℕ) (size previous : ℕ) (offsets : List ℕ)
    → collect_offsets (suc n) table size previous ≡ ok offsets
    → let offset = read_u32be (subspan 4 4 table) in
      (more : List ℕ) × (offset ∷ more ≡ offsets)
      × (previous ≤ offset)
      × (offset ≤ size)
      × (collect_offsets n (drop 8 table) size offset ≡ ok more)
unfolding collect_offsets
collect_offsets-eq-ok n table size previous offsets e =
    let offset = read_u32be (subspan 4 4 table) in
    elim (Bool-cases (ltb offset previous)) [
      | inl below ↦ absurd (cc (rw below at e))
      | inr rises ↦ elim (Bool-cases (ltb size offset)) [
        | inl beyond ↦ absurd (cc (rw (rises, beyond) at e))
        | inr within ↦ elim (Expected-cases (collect_offsets n (drop 8 table) size offset)) [
          | inr (x, f) ↦ absurd (cc (rw (rises, within, f) at e))
          | inl (more, f) ↦ (
            more,
            ok-injective (rw (rises, within, f) at e),
            ltb→le offset previous rises,
            ltb→le size offset within,
            f,
          )
        ]
      ]
    ]

pub collect_offsets-Rising :
    (n : ℕ) (table : List ℕ) (size previous : ℕ) (offsets : List ℕ)
    → collect_offsets n table size previous ≡ ok offsets
    → (length offsets ≡ n) × Rising size previous offsets
unfolding collect_offsets
collect_offsets-Rising zero table size previous offsets e =
    subst (λ xs. (length xs ≡ 0) × Rising size previous xs) (ok-injective e) (refl, tt)
collect_offsets-Rising (suc n) table size previous offsets e =
    let offset = read_u32be (subspan 4 4 table) in
    let (more, same, rises, within, f) = collect_offsets-eq-ok n table size previous offsets e in
    let (count, rising) = collect_offsets-Rising n (drop 8 table) size offset more f in
    subst (λ xs. (length xs ≡ suc n) × Rising size previous xs) same
      (ap suc count, (rises, within, rising))

-- The last of the offsets.
abbrev pub last_offset : ℕ → List ℕ → ℕ
last_offset begin [] = begin
last_offset begin (end ∷ offsets) = last_offset end offsets

pub Rising-last :
    (size begin : ℕ) (offsets : List ℕ)
    → begin ≤ size
    → Rising size begin offsets
    → (begin ≤ last_offset begin offsets) × (last_offset begin offsets ≤ size)
Rising-last size begin [] fits h = (omega arith, fits)
Rising-last size begin (end ∷ offsets) fits (rises, within, more) =
    let (low, high) = Rising-last size end offsets within more in (omega arith, high)

-- The contents of the items, one after the other.
abbrev pub contents : List Item → List ℕ
contents [] = []
contents (item ∷ items) = item.content ++ contents items

take_append_take : (m n : ℕ) (xs : List ℕ) → take m xs ++ take n (drop m xs) ≡ take (m + n) xs
take_append_take zero n xs = ap (λ (k : ℕ). take k xs) {x = n} (omega arith)
take_append_take (suc m) n [] =
    take_all n [] (omega arith) ∙ sym (take_all (suc m + n) [] (omega arith))
take_append_take (suc m) n (x ∷ xs) =
    ap (◌∷◌ x) (take_append_take m n xs)
    ∙ ap (λ (k : ℕ). take k (x ∷ xs)) {x = suc (m + n)} (omega arith)

pub contents-slice_items :
    (offsets : List ℕ) (begin : ℕ) (table bytes : List ℕ)
    → begin ≤ length bytes
    → Rising (length bytes) begin offsets
    → (length (slice_items offsets begin table bytes) ≡ length offsets)
      × (contents (slice_items offsets begin table bytes)
          ≡ subspan begin (last_offset begin offsets - begin) bytes)
unfolding slice_items
contents-slice_items [] begin table bytes fits h =
    (refl, ap (λ (k : ℕ). take k (drop begin bytes)) {x = 0} (omega arith))
contents-slice_items (end ∷ offsets) begin table bytes fits (rises, within, more) =
    let (count, joined) = contents-slice_items offsets end (drop 8 table) bytes within more in
    let (low, high) = Rising-last (length bytes) end offsets within more in
    let last = last_offset end offsets in
    let width : ℕ = end - begin in
    let behind : drop end bytes ≡ drop width (drop begin bytes) =
      ap (λ (k : ℕ). drop k bytes) {x = end} {y = begin + width} (omega arith)
      ∙ sym (drop-drop begin width bytes) in
    (
      ap suc count,
      ap (◌++◌ (subspan begin width bytes)) (joined ∙ ap (take (last - end)) behind)
          ∙ take_append_take width (last - end) (drop begin bytes)
          ∙ ap (λ (k : ℕ). take k (drop begin bytes)) {x = width + (last - end)} (omega arith),
    )
