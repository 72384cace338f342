-- ===== src/Net/Connection/Parts.antt =====
-- A transaction in several parts is put together again.
use slopline.Base.{
  ℕ, ◌≤◌, ◌<◌, ◌&&◌, List, [], ◌∷◌, ◌++◌, Option, none, some, length, All, length-append,
  append_assoc, append-nil, lt→ltb, le→ltb, ◌==◌, eq→==, ne→==, Bool-cases, ◌≡◌, refl, sym, ap, ◌∙◌,
  inl, inr, arith, subst,
}
use slopline.Protocol.Transaction.{TransactionHeader}
use slopline.Net.Connection.{Connection, PartialReceive, on_transaction}
use slopline.Net.Connection.Receive.{
  find_partial, erase_partial, dispatch, accumulated, reassemble, open_data, complete_transaction,
}

-- The header of one part, and the parts' bytes together.
abbrev pub part_header : TransactionHeader → List ℕ → TransactionHeader
part_header header bytes = record header { data_size = length bytes }

abbrev pub joined : List (List ℕ) → List ℕ
joined [] = []
joined (part ∷ parts) = part ++ joined parts

abbrev pub received_of : Option PartialReceive → List ℕ
received_of none = []
received_of (some entry) = entry.received

find_first :
    (is_reply id : ℕ) (header : TransactionHeader) (received : List ℕ)
    (entries : List PartialReceive)
    → let entry : PartialReceive = record {
      is_reply = is_reply;
      id = id;
      header = header;
      received = received;
    } in
      find_partial is_reply id (entry ∷ entries) ≡ some entry
unfolding find_partial
find_first is_reply id header received entries =
    rw (eq→== is_reply is_reply refl, eq→== id id refl) refl

module _ {C : Type 0} where
  -- A part has come in behind its header; and several, one behind the other.
  abbrev pub take_part : Connection C → TransactionHeader → List ℕ → Connection C
  take_part c header bytes =
      complete_transaction (record c { pending_header = part_header header bytes }) bytes

  abbrev pub take_parts : Connection C → TransactionHeader → List (List ℕ) → Connection C
  take_parts c header [] = c
  take_parts c header (part ∷ parts) = take_parts (take_part c header part) header parts

  -- What is there of the transaction.
  abbrev pub held : Connection C → TransactionHeader → List ℕ
  held c header = received_of (find_partial header.is_reply header.id c.partial)

  accumulated-held :
      (c : Connection C) (header : TransactionHeader) (bytes : List ℕ)
      (found : Option PartialReceive)
      → find_partial header.is_reply header.id c.partial ≡ found
      → accumulated (record c { pending_header = part_header header bytes }) bytes
        ≡ held c header ++ bytes
  unfolding accumulated
  accumulated-held c header bytes none e = rw (e, accumulated) refl
  accumulated-held c header bytes (some entry) e = rw (e, accumulated) refl

  part_kept :
      (c : Connection C) (header : TransactionHeader) (bytes : List ℕ)
      → c.crypto.decode_data ≡ none
      → length bytes < header.total_size
      → length (held c header ++ bytes) < header.total_size
      → take_part c header bytes ≡ record c {
        pending_header = part_header header bytes;
        partial =
            record {
              is_reply = header.is_reply;
              id = header.id;
              header = part_header header bytes;
              received = held c header ++ bytes;
            }
            ∷ erase_partial header.is_reply header.id c.partial;
      }
  unfolding complete_transaction open_data reassemble accumulated find_partial erase_partial
  part_kept c header bytes plain part more =
      rw
        (
          plain,
          ne→== header.total_size (length bytes) (omega arith),
          accumulated-held c header bytes _ refl,
          lt→ltb (length (held c header ++ bytes)) header.total_size more,
        )
        refl

  part_last :
      (c : Connection C) (header : TransactionHeader) (bytes : List ℕ)
      → c.crypto.decode_data ≡ none
      → length bytes < header.total_size
      → header.total_size ≤ length (held c header ++ bytes)
      → take_part c header bytes ≡ record c {
        pending_header = part_header header bytes;
        partial = erase_partial header.is_reply header.id c.partial;
        events = on_transaction (part_header header bytes) (held c header ++ bytes) ∷ c.events;
      }
  unfolding complete_transaction open_data reassemble dispatch accumulated find_partial
      erase_partial
  part_last c header bytes plain part whole =
      rw
        (
          plain,
          ne→== header.total_size (length bytes) (omega arith),
          accumulated-held c header bytes _ refl,
          le→ltb (length (held c header ++ bytes)) header.total_size whole,
        )
        refl

find-erase_partial :
    (is_reply id : ℕ) (entries : List PartialReceive)
    → find_partial is_reply id (erase_partial is_reply id entries) ≡ none
unfolding find_partial erase_partial
find-erase_partial is_reply id [] = refl
find-erase_partial is_reply id (entry ∷ entries) =
    elim (Bool-cases (entry.is_reply == is_reply && entry.id == id)) [
      | inl same ↦ rw same (find-erase_partial is_reply id entries)
      | inr other ↦ rw (other, find_partial, other) (find-erase_partial is_reply id entries)
    ]

module _ {C : Type 0} where
  held-kept :
      (c : Connection C) (header : TransactionHeader) (bytes : List ℕ)
      → c.crypto.decode_data ≡ none
      → length bytes < header.total_size
      → length (held c header ++ bytes) < header.total_size
      → held (take_part c header bytes) header ≡ held c header ++ bytes
  held-kept c header bytes plain part more =
      ap (λ (d : Connection C). held d header) (part_kept c header bytes plain part more)
      ∙ ap received_of (
          find_first header.is_reply header.id (part_header header bytes) (held c header ++ bytes)
            _)

  -- The parts of a transaction, each shorter than the whole, that complete it with the last: they
  -- are dispatched once, joined in the order in which they came in and behind what was held, under
  -- the last part's header; and nothing of that transaction is held any more.
  pub take_parts-dispatch :
      (front : List (List ℕ)) (last : List ℕ) (c : Connection C) (header : TransactionHeader)
      → c.crypto.decode_data ≡ none
      → All (λ part. length part < header.total_size) front
      → length last < header.total_size
      → length (held c header ++ joined front) < header.total_size
      → header.total_size ≤ length ((held c header ++ joined front) ++ last)
      → let t = take_parts c header (front ++ (last ∷ [])) in
        (t.events
          ≡ on_transaction (part_header header last) ((held c header ++ joined front) ++ last)
            ∷ c.events)
        × (find_partial header.is_reply header.id t.partial ≡ none)
  take_parts-dispatch [] last c header plain parts part short whole =
      let empty : held c header ++ [] ≡ held c header = append-nil (held c header) in
      let step =
        part_last c header last plain part
          (subst (λ h. header.total_size ≤ length (h ++ last)) empty whole) in
      (
        ap (λ (d : Connection C). d.events) step
            ∙ ap (λ h. on_transaction (part_header header last) (h ++ last) ∷ c.events) (sym empty),
        ap (λ (d : Connection C). find_partial header.is_reply header.id d.partial) step
            ∙ find-erase_partial header.is_reply header.id c.partial,
      )
  take_parts-dispatch (part ∷ more) last c header plain (first, parts) last_part short whole =
      let so_far : length (held c header ++ part) < header.total_size = omega (
        arith,
        length-append (held c header) part,
        length-append (held c header) (part ++ joined more),
        length-append part (joined more),
      ) in
      let step = part_kept c header part plain first so_far in
      let next = take_part c header part in
      let same : held next header ++ joined more ≡ held c header ++ joined (part ∷ more) =
        ap (λ h. h ++ joined more) (held-kept c header part plain first so_far)
        ∙ append_assoc (held c header) part (joined more) in
      let (events, gone) =
        take_parts-dispatch more last next header
          (ap (λ (d : Connection C). d.crypto.decode_data) step ∙ plain) parts last_part
          (subst (λ h. length h < header.total_size) (sym same) short)
          (subst (λ h. header.total_size ≤ length (h ++ last)) (sym same) whole) in
      (
        events
            ∙ ap (λ h. on_transaction (part_header header last) (h ++ last) ∷ next.events) same
            ∙ ap
                (λ (d : Connection C).
                  on_transaction (part_header header last)
                    ((held c header ++ joined (part ∷ more)) ++ last)
                  ∷ d.events)
                step,
        gone,
      )
