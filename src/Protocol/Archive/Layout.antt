-- ===== src/Protocol/Archive/Layout.antt =====
-- src/hotline/protocol/include/hotline/protocol/archive.h: the layout that its first comment gives, and
-- the decoder of src/archive.cpp on it.
use slopline.Base.{
  ℕ, ◌+◌, ◌-◌, ◌^◌, ◌≤◌, ◌<◌, min, List, [], ◌∷◌, ◌++◌, length, length-append, length-replicate,
  replicate, take, drop, take-append, drop_past, subspan, get_or, All, ok, ◌≡◌, refl, sym, ap, ◌∙◌,
  append-nil, append_assoc, arith,
}
use slopline.Core.Errors.{guard, take_span-append, expect_end}
use slopline.Core.Endian.{read_u16be, read_u32be, write_u16be, write_u32be}
use slopline.Core.Endian.Laws.{read-write_u16be, read-write_u32be}
use slopline.Core.Sequence.{decode_each}
use slopline.Core.Sequence.Codec.{written_each, decode_each_lem}
use slopline.Protocol.Archive.{
  Archive, archive_format, archive_version, decode_entry, try_decode_archive,
}
use slopline.Protocol.Archive.Entries.{entry_layout, IsEntry, IsEntry-codec}

-- The first 28 bytes, the name's field of 64, and the three numbers behind it.
abbrev pub archive_front : Archive → List ℕ
archive_front archive =
    write_u32be archive_format
    ++ (write_u32be archive.version ++ (write_u32be archive.archive_size ++ replicate 16 0))

abbrev pub name_field : List ℕ → List ℕ
name_field name = length name ∷ (name ++ replicate (63 - length name) 0)

abbrev pub archive_back : Archive → List ℕ
archive_back archive =
    write_u16be (length archive.entries)
    ++ (write_u16be archive.file_auto_launch ++ write_u16be (length archive.reserved3))

abbrev pub archive_head : Archive → List ℕ
archive_head archive =
    archive_front archive ++ (name_field archive.archive_name ++ archive_back archive)

abbrev pub archive_layout : Archive → List ℕ
archive_layout archive =
    archive_head archive ++ (archive.reserved3 ++ written_each entry_layout archive.entries)

pub record IsArchive (archive : Archive) : Type 0 where
  pub version_known : archive.version ≡ archive_version
  pub archive_size_fits : archive.archive_size < 2 ^ 32
  pub archive_name_fits : length archive.archive_name ≤ 63
  pub file_auto_launch_fits : archive.file_auto_launch < 2 ^ 16
  pub reserved3_fits : length archive.reserved3 < 2 ^ 16
  pub count_fits : length archive.entries < 2 ^ 16
  pub entries_fit : All IsEntry archive.entries

module _ (archive : Archive) (h : IsArchive archive) where
  length-name_field : length (name_field archive.archive_name) ≡ 64
  length-name_field = omega (
    arith,
    h.archive_name_fits,
    length-append archive.archive_name (replicate (63 - length archive.archive_name) 0),
    length-replicate {A = ℕ} (63 - length archive.archive_name) 0,
  )

  length-archive_head : length (archive_head archive) ≡ 98
  unfolding write_u16be write_u32be
  length-archive_head = omega (
    arith,
    length-append (name_field archive.archive_name) (archive_back archive),
    length-name_field,
  )

  -- Behind the name's field.
  behind_name :
      (k n : ℕ) → k ≡ 92 + n → drop k (archive_head archive) ≡ drop n (archive_back archive)
  unfolding write_u32be
  behind_name k n e =
      drop_past 28 (64 + n) k (archive_front archive)
        (name_field archive.archive_name ++ archive_back archive) refl (omega arith)
      ∙ drop_past 64 n (64 + n) (name_field archive.archive_name) (archive_back archive)
          length-name_field refl

  count_read : read_u16be (subspan 92 2 (archive_head archive)) ≡ length archive.entries
  unfolding write_u16be
  count_read =
      ap (λ xs. read_u16be (take 2 xs)) (behind_name 92 0 refl)
      ∙ read-write_u16be (length archive.entries) h.count_fits

  launch_read : read_u16be (subspan 94 2 (archive_head archive)) ≡ archive.file_auto_launch
  unfolding write_u16be
  launch_read =
      ap (λ xs. read_u16be (take 2 xs)) (behind_name 94 2 refl)
      ∙ read-write_u16be archive.file_auto_launch h.file_auto_launch_fits

  reserved_read : read_u16be (subspan 96 2 (archive_head archive)) ≡ length archive.reserved3
  unfolding write_u16be
  reserved_read =
      ap (λ xs. read_u16be (take 2 xs)) (behind_name 96 4 refl)
      ∙ read-write_u16be (length archive.reserved3) h.reserved3_fits

  name_read :
      subspan 29 (min (get_or (archive_head archive) 28 0) 63) (archive_head archive)
      ≡ archive.archive_name
  unfolding write_u32be
  name_read =
      let padding : List ℕ = replicate (63 - length archive.archive_name) 0 in
      ap (λ (n : ℕ). take n ((archive.archive_name ++ padding) ++ archive_back archive))
        {x = min (length archive.archive_name) 63} (omega (arith, h.archive_name_fits))
      ∙ ap (take (length archive.archive_name))
          (append_assoc archive.archive_name padding (archive_back archive))
      ∙ take-append (length archive.archive_name) archive.archive_name
          (padding ++ archive_back archive) refl

format_read : (archive : Archive) → read_u32be (take 4 (archive_head archive)) ≡ archive_format
unfolding write_u32be
format_read archive = read-write_u32be archive_format (omega arith)

version_read :
    (archive : Archive)
    → IsArchive archive
    → read_u32be (subspan 4 4 (archive_head archive)) ≡ archive_version
unfolding write_u32be
version_read archive h =
    read-write_u32be archive.version (omega (arith, h.version_known)) ∙ h.version_known

size_read :
    (archive : Archive)
    → IsArchive archive
    → read_u32be (subspan 8 4 (archive_head archive)) ≡ archive.archive_size
unfolding write_u32be
size_read archive h = read-write_u32be archive.archive_size h.archive_size_fits

-- An archive that is laid out as the header's comment says, with a name of at most 63 bytes and every
-- number and size within its field, is decoded to its version, sizes, name, reserved bytes and
-- entries, each entry with its path, types and payload.
pub try_decode_archive-layout :
    (archive : Archive)
    → IsArchive archive
    → try_decode_archive (archive_layout archive) ≡ ok archive
unfolding try_decode_archive guard expect_end
try_decode_archive-layout archive h =
    let entries = written_each entry_layout archive.entries in
    let head = archive_head archive in
    let all_read : decode_each decode_entry (length archive.entries) entries
        ≡ ok (archive.entries, []) =
      rw (append-nil) at (decode_each_lem IsEntry-codec archive.entries [] h.entries_fit) in
    rw
      (
        take_span-append 98 head (archive.reserved3 ++ entries) (length-archive_head archive h),
        format_read archive,
        version_read archive h,
        reserved_read archive h,
        take_span-append (length archive.reserved3) archive.reserved3 entries refl,
        count_read archive h,
        all_read,
      )
      (λ i. ok (record {
        version = sym h.version_known i;
        archive_size = size_read archive h i;
        archive_name = name_read archive h i;
        file_auto_launch = launch_read archive h i;
        reserved3 = archive.reserved3;
        entries = archive.entries;
      }))
