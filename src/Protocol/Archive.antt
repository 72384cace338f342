-- ===== src/Protocol/Archive.antt =====
-- src/hotline/protocol/include/hotline/protocol/archive.h and src/archive.cpp: the archive container
-- and the content of its entries. A std::string is the list of its bytes; zlib's `uncompress` is a
-- parameter.
pub mod Entries
pub mod Layout
pub mod Content
use slopline.Base.{
  ℕ, ◌+◌, ◌*◌, List, [], ◌∷◌, ◌++◌, min, ltb, ◌==◌, not, ◌||◌, if◌then◌else◌, length, get_or, take,
  drop, subspan, replicate, Expected, ok, err, ◌>>=◌,
}
use slopline.Core.Errors.{guard, DecodeError, take_span, expect_end}
use slopline.Core.Endian.{read_u16be, read_u32be, four_cc}
use slopline.Core.Sequence.{decode_each}
use slopline.Protocol.Transfer.Folder.{FolderPathComponent, decode_path_component}

abbrev pub archive_format : ℕ
archive_format = four_cc b'h' b'a' b'r' b'c'

abbrev pub archive_version : ℕ
archive_version = 1

abbrev pub archive_compression_zlib : ℕ
archive_compression_zlib = four_cc b'z' b'l' b'i' b'b'

abbrev pub archive_compression_raw : ℕ
archive_compression_raw = four_cc b'r' b'a' b'w' b' '

abbrev pub max_archive_entry_decompressed_size : ℕ
max_archive_entry_decompressed_size = 64 * 1024 * 1024

pub record ArchiveEntry : Type 0 where
  pub type : ℕ
  pub path : List FolderPathComponent
  pub reserved : List ℕ
  pub compression_type : ℕ
  pub decompressed_size : ℕ
  pub payload : List ℕ

pub record Archive : Type 0 where
  pub version : ℕ
  pub archive_size : ℕ
  pub archive_name : List ℕ
  pub file_auto_launch : ℕ
  pub reserved3 : List ℕ
  pub entries : List ArchiveEntry

pub data ArchiveError : Type 0 where
  unsupported_compression decompressed_size_mismatch zlib_failure exceeds_size_cap : ArchiveError

-- The path of an entry, in bytes of its own.
unfoldable pub decode_entry_path : List ℕ → Expected DecodeError (List FolderPathComponent)
decode_entry_path path_bytes = do
  (head, components) ← take_span 2 path_bytes
  (path, rest) ← decode_each decode_path_component (read_u16be head) components
  _ ← expect_end rest
  ok path

-- A round of the loop over the files.
unfoldable pub decode_entry : List ℕ → Expected DecodeError (ArchiveEntry × List ℕ)
decode_entry bytes = do
  (head, bytes) ← take_span 10 bytes
  (path_bytes, bytes) ← take_span (read_u16be (subspan 8 2 head)) bytes
  path ← decode_entry_path path_bytes
  (size, bytes) ← take_span 2 bytes
  (reserved, bytes) ← take_span (read_u16be size) bytes
  (file_head, bytes) ← take_span 12 bytes
  (payload, bytes) ← take_span (read_u32be (subspan 8 4 file_head)) bytes
  ok (
    record {
      type = read_u32be (take 4 head);
      path = path;
      reserved = reserved;
      compression_type = read_u32be (take 4 file_head);
      decompressed_size = read_u32be (subspan 4 4 file_head);
      payload = payload;
    },
    bytes,
  )

unfoldable pub try_decode_archive : List ℕ → Expected DecodeError Archive
try_decode_archive bytes = do
  (head, bytes) ← take_span 98 bytes
  _ ← guard (read_u32be (take 4 head) == archive_format) DecodeError.wrong_format_tag
  _ ← guard (read_u32be (subspan 4 4 head) == archive_version) DecodeError.unsupported_version
  (reserved3, bytes) ← take_span (read_u16be (subspan 96 2 head)) bytes
  (entries, rest) ← decode_each decode_entry (read_u16be (subspan 92 2 head)) bytes
  _ ← expect_end rest
  ok (record {
    version = read_u32be (subspan 4 4 head);
    archive_size = read_u32be (subspan 8 4 head);
    archive_name = subspan 29 (min (get_or head 28 0) 63) head;
    file_auto_launch = read_u16be (subspan 94 2 head);
    reserved3 = reserved3;
    entries = entries;
  })

-- `uncompress`: the result code, 0 for Z_OK, and the bytes that it has written to the front of a
-- buffer of the size given.
module _ (uncompress : ℕ → List ℕ → ℕ × List ℕ) where
  unfoldable pub inflated : ArchiveEntry → Expected ArchiveError (List ℕ)
  inflated entry =
      let (result, written) = uncompress entry.decompressed_size entry.payload in
      if not (result == 0) || not (length written == entry.decompressed_size)
      then err ArchiveError.zlib_failure
      else ok (written ++ drop (length written) (replicate entry.decompressed_size 0))

  unfoldable pub decompress_archive_entry : ArchiveEntry → Expected ArchiveError (List ℕ)
  decompress_archive_entry entry =
      if ltb max_archive_entry_decompressed_size entry.decompressed_size
      then err ArchiveError.exceeds_size_cap
      else if entry.compression_type == archive_compression_raw
      then (if not (length entry.payload == entry.decompressed_size)
          then err ArchiveError.decompressed_size_mismatch
          else ok entry.payload)
      else if not (entry.compression_type == archive_compression_zlib)
      then err ArchiveError.unsupported_compression
      else inflated entry
