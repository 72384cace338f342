-- ===== src/Tests/Containers.antt =====
-- Archives, transfer records, arrays and buffers of bits on concrete inputs.
use slopline.Base.{
  ℕ, ◌+◌, ◌-◌, ◌*◌, ◌%◌, ◌^◌, ◌≤◌, ◌<◌, true, not, List, [], ◌∷◌, length, drop, subspan, ok, ◌↔◌,
  ◌==◌, if◌then◌else◌, ◌≡◌, refl, arith,
}
use slopline.Protocol.Transfer.Info.{FlatFileInfo, IsInfo, encode_info_fork, try_decode_info_fork}
use slopline.Protocol.Transfer.Info.RoundTrip.{decode-encode_info_fork}
use slopline.Protocol.Transfer.Folder.{
  FolderPathComponent, FolderDownloadItem, encode_folder_download_item,
  try_decode_folder_download_item, decode-encode_folder_download_item,
}
use slopline.Protocol.Archive.{
  ArchiveEntry, Archive, try_decode_archive, decompress_archive_entry, archive_compression_raw,
  archive_compression_zlib,
}
use slopline.Protocol.Archive.Entries.{IsEntry}
use slopline.Protocol.Archive.Layout.{archive_layout, try_decode_archive-layout}
use slopline.Protocol.Archive.Content.{Holds, decompress_archive_entry_iff}
use slopline.Core.Endian.{read_u32be, write_u16be}
use slopline.Core.Ivar
use slopline.Core.Ivar.{Array, Item}
use slopline.Core.Ivar.Slices.{decode-contents}
use slopline.Core.Ivar.Order.{contents}
use slopline.Core.Ivar.Entries.{offset_at, items_from}
use slopline.Core.Bits.{get_bit, put_bit, invert_bit}
use slopline.Core.Bits.Access.{get_bit-change}
use slopline.Core.Align.{up, down, up-down}
use slopline.Tests.Inputs.{hello}

abbrev some_info : FlatFileInfo
some_info = record {
  platform = 1;
  type_sig = 2;
  creator_sig = 3;
  flags = 4;
  platform_flags = 5;
  reserved =
      0 ∷ 0 ∷ 0 ∷ 0 ∷ 0 ∷ 0 ∷ 0 ∷ 0 ∷ 0 ∷ 0 ∷ 0 ∷ 0 ∷ 0 ∷ 0 ∷ 0 ∷ 0 ∷ 0 ∷ 0 ∷ 0 ∷ 0 ∷ 0 ∷ 0 ∷ 0 ∷ 0
      ∷ 0 ∷ 0 ∷ 0 ∷ 0 ∷ 0 ∷ 0 ∷ 0 ∷ 9 ∷ [];
  create_date = record { year = 1904; msecs = 1; seconds = 70000 };
  modify_date = record { year = 1904; msecs = 2; seconds = 70001 };
  name_script = 0;
  name = hello;
  comment = 7 ∷ [];
}

some_info-IsInfo : IsInfo some_info
some_info-IsInfo = record {
  platform_fits = omega arith;
  type_sig_fits = omega arith;
  creator_sig_fits = omega arith;
  flags_fits = omega arith;
  platform_flags_fits = omega arith;
  reserved_size = refl;
  create_date_fits = record {
    year_fits = omega arith;
    msecs_fits = omega arith;
    seconds_fits = omega arith;
  };
  modify_date_fits = record {
    year_fits = omega arith;
    msecs_fits = omega arith;
    seconds_fits = omega arith;
  };
  name_script_fits = omega arith;
}

decode-encode_info_fork_example :
    (bytes : List ℕ) × (encode_info_fork some_info ≡ ok bytes)
    × (try_decode_info_fork bytes ≡ ok some_info)
decode-encode_info_fork_example =
    decode-encode_info_fork some_info some_info-IsInfo (omega arith) (omega arith)

abbrev some_path : List FolderPathComponent
some_path = record { script = 0; name = hello } ∷ record { script = 3; name = [] } ∷ []

abbrev some_item : FolderDownloadItem
some_item = record { folder = true; path = some_path }

decode-encode_folder_download_item_example :
    (bytes : List ℕ) × (encode_folder_download_item some_item ≡ ok bytes)
    × (try_decode_folder_download_item bytes ≡ ok some_item)
unfolding write_u16be
decode-encode_folder_download_item_example =
    decode-encode_folder_download_item some_item (omega arith) (omega arith)

abbrev some_entry : ArchiveEntry
some_entry = record {
  type = 1;
  path = some_path;
  reserved = 1 ∷ 2 ∷ [];
  compression_type = archive_compression_raw;
  decompressed_size = 5;
  payload = hello;
}

some_entry-IsEntry : IsEntry some_entry
unfolding write_u16be
some_entry-IsEntry = record {
  type_fits = omega arith;
  path_fits = omega arith;
  path_count_fits = omega arith;
  path_size_fits = omega arith;
  reserved_fits = omega arith;
  compression_type_fits = omega arith;
  decompressed_size_fits = omega arith;
  payload_fits = omega arith;
}

abbrev some_archive : Archive
some_archive = record {
  version = 1;
  archive_size = 100;
  archive_name = hello;
  file_auto_launch = 0;
  reserved3 = 6 ∷ [];
  entries = some_entry ∷ some_entry ∷ [];
}

try_decode_archive-layout_example :
    try_decode_archive (archive_layout some_archive) ≡ ok some_archive
try_decode_archive-layout_example = try_decode_archive-layout some_archive (record {
  version_known = refl;
  archive_size_fits = omega arith;
  archive_name_fits = omega arith;
  file_auto_launch_fits = omega arith;
  reserved3_fits = omega arith;
  count_fits = omega arith;
  entries_fit = (some_entry-IsEntry, (some_entry-IsEntry, tt));
})

-- A decompressor for payloads that are not compressed.
abbrev copying : ℕ → List ℕ → ℕ × List ℕ
copying size payload = (0, payload)

abbrev packed_entry : ArchiveEntry
packed_entry = record some_entry { compression_type = archive_compression_zlib }

decompress_archive_entry_iff_example :
    (decompress_archive_entry copying packed_entry ≡ ok hello) ↔ Holds copying packed_entry hello
decompress_archive_entry_iff_example = decompress_archive_entry_iff copying packed_entry hello

-- Two items of two bytes and one byte.
abbrev ivar_bytes : List ℕ
ivar_bytes =
    b'I' ∷ b'V' ∷ b'A' ∷ b'1' ∷ 0 ∷ 0 ∷ 0 ∷ 0 ∷ 0 ∷ 0 ∷ 0 ∷ 0 ∷ 0 ∷ 0 ∷ 0 ∷ 2 ∷ 0 ∷ 0 ∷ 0 ∷ 9 ∷ 0
    ∷ 0 ∷ 0 ∷ 0 ∷ 0 ∷ 0 ∷ 0 ∷ 8 ∷ 0 ∷ 0 ∷ 0 ∷ 2 ∷ 0 ∷ 0 ∷ 0 ∷ 0 ∷ 0 ∷ 0 ∷ 0 ∷ 3 ∷ 65 ∷ 66 ∷ 67 ∷ []

abbrev ivar_array : Array
ivar_array = record {
  text_encoding = 0;
  items = record { id = 9; content = 65 ∷ 66 ∷ [] } ∷ record { id = 8; content = 67 ∷ [] } ∷ [];
}

ivar_decoded : Ivar.decode ivar_bytes ≡ ok ivar_array
unfolding Ivar.decode Ivar.decode_table Ivar.collect_offsets Ivar.sliced Ivar.slice_items read_u32be
ivar_decoded = refl

decode-contents_example :
    let count = read_u32be (subspan 12 4 ivar_bytes) in
    let content = drop (16 + (count + 1) * 8) ivar_bytes in
    let first = offset_at ivar_bytes 0 in
    let last = offset_at ivar_bytes count in
    (16 + (count + 1) * 8 ≤ length ivar_bytes)
    × (ivar_array.text_encoding ≡ read_u32be (subspan 8 4 ivar_bytes))
    × (ivar_array.items ≡ items_from ivar_bytes content 0 count)
    × (length ivar_array.items ≡ count)
    × (first ≤ last)
    × (last ≤ length content)
    × (contents ivar_array.items ≡ subspan first (last - first) content)
decode-contents_example = decode-contents ivar_bytes ivar_array ivar_decoded

get_bit-change_example :
    (get_bit (put_bit hello 9 true) 8 ≡ (if 9 == 8 then true else get_bit hello 8))
    × (get_bit (invert_bit hello 9) 8 ≡ (if 9 == 8 then not (get_bit hello 9) else get_bit hello 8))
get_bit-change_example = get_bit-change hello 9 8 true (omega arith)

up-down_example :
    (down (2 + 6) 13 (2 ^ 2) % 2 ^ 2 ≡ 0)
    × (down (2 + 6) 13 (2 ^ 2) ≤ 13)
    × (13 < down (2 + 6) 13 (2 ^ 2) + 2 ^ 2)
    × (up (2 + 6) 13 (2 ^ 2) % 2 ^ 2 ≡ 0)
    × (13 ≤ up (2 + 6) 13 (2 ^ 2))
    × (up (2 + 6) 13 (2 ^ 2) < 13 + 2 ^ 2)
up-down_example = up-down 2 6 13 (omega arith)
