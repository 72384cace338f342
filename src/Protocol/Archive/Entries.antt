-- ===== src/Protocol/Archive/Entries.antt =====
-- src/hotline/protocol/include/hotline/protocol/archive.h: how the first comment lays out one entry, and
-- the decoder of src/archive.cpp on it.
use slopline.Base.{
  ℕ, ◌^◌, ◌<◌, List, [], ◌++◌, length, All, ok, ◌≡◌, refl, ap, ◌∙◌, append-nil, append_assoc,
}
use slopline.Core.Errors.{take_span-append, expect_end}
use slopline.Core.Endian.{write_u16be, write_u32be}
use slopline.Core.Endian.Laws.{read-write_u16be, read-write_u32be}
use slopline.Core.Sequence.{decode_each}
use slopline.Core.Sequence.Codec.{IsCodec, written_each, decode_each_lem}
use slopline.Protocol.Transfer.Folder.{
  FolderPathComponent, IsPathComponent, IsPathComponent-codec, component_bytes,
  decode_path_component,
}
use slopline.Protocol.Archive.{ArchiveEntry, decode_entry_path, decode_entry}

abbrev pub path_layout : List FolderPathComponent → List ℕ
path_layout path = write_u16be (length path) ++ written_each component_bytes path

abbrev pub entry_head : ArchiveEntry → List ℕ
entry_head entry =
    write_u32be entry.type ++ (write_u32be 0 ++ write_u16be (length (path_layout entry.path)))

abbrev pub file_head : ArchiveEntry → List ℕ
file_head entry =
    write_u32be entry.compression_type
    ++ (write_u32be entry.decompressed_size ++ write_u32be (length entry.payload))

abbrev pub entry_layout : ArchiveEntry → List ℕ
entry_layout entry =
    entry_head entry
    ++ (path_layout entry.path
        ++ (write_u16be (length entry.reserved)
            ++ (entry.reserved ++ (file_head entry ++ entry.payload))))

-- The values that the members' types and the sizes on the wire hold.
pub record IsEntry (entry : ArchiveEntry) : Type 0 where
  pub type_fits : entry.type < 2 ^ 32
  pub path_fits : All IsPathComponent entry.path
  pub path_count_fits : length entry.path < 2 ^ 16
  pub path_size_fits : length (path_layout entry.path) < 2 ^ 16
  pub reserved_fits : length entry.reserved < 2 ^ 16
  pub compression_type_fits : entry.compression_type < 2 ^ 32
  pub decompressed_size_fits : entry.decompressed_size < 2 ^ 32
  pub payload_fits : length entry.payload < 2 ^ 32

path-layout :
    (path : List FolderPathComponent)
    → All IsPathComponent path
    → length path < 2 ^ 16
    → decode_entry_path (path_layout path) ≡ ok path
unfolding decode_entry_path expect_end
path-layout path all few =
    let all_read : decode_each decode_path_component (length path)
          (written_each component_bytes path)
        ≡ ok (path, []) =
      rw (append-nil) at (decode_each_lem IsPathComponent-codec path [] all) in
    rw
      (
        take_span-append 2 (write_u16be (length path)) (written_each component_bytes path)
            (unfold write_u16be in refl),
        read-write_u16be (length path) few,
        all_read,
      )
      refl

entry_read :
    (entry : ArchiveEntry) (rest : List ℕ)
    → IsEntry entry
    → decode_entry (
        entry_head entry
        ++ (path_layout entry.path
            ++ (write_u16be (length entry.reserved)
                ++ (entry.reserved ++ (file_head entry ++ (entry.payload ++ rest))))))
      ≡ ok (entry, rest)
unfolding decode_entry write_u16be write_u32be
entry_read entry rest h =
    let path = path_layout entry.path in
    let held : List ℕ = file_head entry ++ (entry.payload ++ rest) in
    let sized : List ℕ = write_u16be (length entry.reserved) ++ (entry.reserved ++ held) in
    rw
      (
        take_span-append 10 (entry_head entry) (path ++ sized) refl,
        read-write_u16be (length path) h.path_size_fits,
        take_span-append (length path) path sized refl,
        path-layout entry.path h.path_fits h.path_count_fits,
        take_span-append 2 (write_u16be (length entry.reserved)) (entry.reserved ++ held) refl,
        read-write_u16be (length entry.reserved) h.reserved_fits,
        take_span-append (length entry.reserved) entry.reserved held refl,
        take_span-append 12 (file_head entry) (entry.payload ++ rest) refl,
        read-write_u32be (length entry.payload) h.payload_fits,
        take_span-append (length entry.payload) entry.payload rest refl,
        read-write_u32be entry.type h.type_fits,
        read-write_u32be entry.compression_type h.compression_type_fits,
        read-write_u32be entry.decompressed_size h.decompressed_size_fits,
      )
      refl

entry-layout :
    (entry : ArchiveEntry) (rest : List ℕ)
    → IsEntry entry
    → decode_entry (entry_layout entry ++ rest) ≡ ok (entry, rest)
entry-layout entry rest h =
    let regroup : entry_layout entry ++ rest
        ≡ entry_head entry
          ++ (path_layout entry.path
              ++ (write_u16be (length entry.reserved)
                  ++ (entry.reserved ++ (file_head entry ++ (entry.payload ++ rest))))) =
      simp append_assoc refl in
    ap decode_entry regroup ∙ entry_read entry rest h

pub IsEntry-codec :
    IsCodec {A = ArchiveEntry} (λ entry. ok (entry_layout entry)) decode_entry IsEntry entry_layout
IsEntry-codec = record { writes = λ entry h. refl; reads = entry-layout }
