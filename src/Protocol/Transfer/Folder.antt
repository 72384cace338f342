-- ===== src/Protocol/Transfer/Folder.antt =====
-- src/hotline/protocol/src/transfer.cpp: the item of a folder download, and its read back. A
-- std::string is the list of its bytes.
use slopline.Base.{
  ℕ, ◌+◌, ◌-◌, ◌%◌, ◌^◌, ◌≤◌, ◌<◌, Bool, true, false, not, List, [], ◌∷◌, ◌++◌, ltb, le→ltb, ◌==◌,
  if◌then◌else◌, length, length-append, get_or, take, take_all, subspan, All, bit_and, Expected, ok,
  err, ◌>>=◌, ◌≡◌, refl, sym, append-nil, arith,
}
use slopline.Core.Errors.{
  guard, DecodeError, EncodeError, take_span, take_span-append, expect_end, exact_size,
  exact_size-eq-ok,
}
use slopline.Core.Endian.{read_u16be, write_u16be}
use slopline.Core.Endian.Laws.{read-write_u16be}
use slopline.Core.Sequence.{decode_each, encode_each}
use slopline.Core.Sequence.Codec.{IsCodec, written_each, encode_each_lem, decode_each_lem}
use slopline.Protocol.Constants.{max_field_data_size}
use native.Mathlib.Nat.{mod-eq_of_lt}

pub record FolderPathComponent : Type 0 where
  pub script : ℕ
  pub name : List ℕ

pub record FolderDownloadItem : Type 0 where
  pub folder : Bool
  pub path : List FolderPathComponent

-- A round of the loop that appends to `path`.
unfoldable pub encode_path_component : FolderPathComponent → Expected EncodeError (List ℕ)
encode_path_component component =
    if ltb 255 (length component.name)
    then err EncodeError.string_too_long
    else ok (write_u16be component.script ++ (length component.name % 256 ∷ component.name))

folder_item_bytes : FolderDownloadItem → List ℕ → Expected EncodeError (List ℕ)
folder_item_bytes item path =
    let size = 4 + length path in
    if ltb max_field_data_size size
    then err EncodeError.element_too_large
    else ok (
        write_u16be (size % 2 ^ 16)
        ++ (write_u16be (if item.folder then 1 else 0)
            ++ (write_u16be (length item.path % 2 ^ 16) ++ path)))

pub encode_folder_download_item : FolderDownloadItem → Expected EncodeError (List ℕ)
unfolding folder_item_bytes
encode_folder_download_item item = do
  path ← encode_each encode_path_component item.path
  folder_item_bytes item path

-- A round of the loop that takes `path` apart.
unfoldable pub decode_path_component : List ℕ → Expected DecodeError (FolderPathComponent × List ℕ)
decode_path_component path = do
  (head, path) ← take_span 3 path
  (name, path) ← take_span (get_or head 2 0) path
  ok (record { script = read_u16be (take 2 head); name = name }, path)

pub try_decode_folder_download_item : List ℕ → Expected DecodeError FolderDownloadItem
unfolding guard
try_decode_folder_download_item bytes = do
  (head, _) ← take_span 2 bytes
  let size = read_u16be head
  _ ← guard (not (ltb size 4)) DecodeError.truncated
  bytes ← exact_size (2 + size) bytes
  (path, rest) ←
      decode_each decode_path_component (read_u16be (subspan 4 2 bytes))
        (subspan 6 (size - 4) bytes)
  _ ← expect_end rest
  ok (record { folder = not (bit_and (read_u16be (subspan 2 2 bytes)) 1 == 0); path = path })

-- The components that the wire can hold.
abbrev pub IsPathComponent : FolderPathComponent → Type 0
IsPathComponent component = (component.script < 2 ^ 16) × (length component.name ≤ 255)

abbrev pub component_bytes : FolderPathComponent → List ℕ
component_bytes component =
    write_u16be component.script ++ (length component.name % 256 ∷ component.name)

decode-component_bytes :
    (component : FolderPathComponent) (rest : List ℕ)
    → IsPathComponent component
    → decode_path_component (component_bytes component ++ rest) ≡ ok (component, rest)
unfolding decode_path_component write_u16be
decode-component_bytes component rest (script_fits, size_fits) =
    let size : ℕ = length component.name % 256 in
    let whole : size ≡ length component.name = mod-eq_of_lt (omega arith) in
    let head : List ℕ = write_u16be component.script ++ (size ∷ []) in
    rw
      (
        take_span-append 3 head (component.name ++ rest) refl,
        take_span-append size component.name rest (sym whole),
        read-write_u16be component.script script_fits,
      )
      refl

pub IsPathComponent-codec :
    IsCodec encode_path_component decode_path_component IsPathComponent component_bytes
unfolding encode_path_component
IsPathComponent-codec = record {
  writes = λ component h. rw (le→ltb 255 (length component.name) h.1) refl;
  reads = decode-component_bytes;
}

-- Each component takes three bytes at least.
length-components :
    (path : List FolderPathComponent) → length path ≤ length (written_each component_bytes path)
unfolding write_u16be
length-components [] = omega arith
length-components (component ∷ path) = omega (
  arith,
  length-append (component_bytes component) (written_each component_bytes path),
  length-components path,
)

flag_read : (folder : Bool) → not (bit_and (if folder then 1 else 0) 1 == 0) ≡ folder
flag_read true = refl
flag_read false = refl

flag-lt : (folder : Bool) → (if folder then 1 else 0) < 2 ^ 16
flag-lt true = omega arith
flag-lt false = omega arith

pub decode-encode_folder_download_item :
    (item : FolderDownloadItem)
    → All IsPathComponent item.path
    → 4 + length (written_each component_bytes item.path) ≤ max_field_data_size
    → (bytes : List ℕ) × (encode_folder_download_item item ≡ ok bytes)
      × (try_decode_folder_download_item bytes ≡ ok item)
unfolding encode_folder_download_item folder_item_bytes try_decode_folder_download_item guard
    write_u16be expect_end
decode-encode_folder_download_item item all fits =
    let path = written_each component_bytes item.path in
    let count : ℕ = length item.path % 2 ^ 16 in
    let flag : ℕ = if item.folder then 1 else 0 in
    let whole : count ≡ length item.path =
      mod-eq_of_lt (omega (arith, length-components item.path)) in
    let size : ℕ = (4 + length path) % 2 ^ 16 in
    let sized : size ≡ 4 + length path = mod-eq_of_lt (omega arith) in
    let body : List ℕ = write_u16be flag ++ (write_u16be count ++ path) in
    let bytes : List ℕ = write_u16be size ++ body in
    let all_read : decode_each decode_path_component (length item.path) path ≡ ok (item.path, []) =
      rw (append-nil) at (decode_each_lem IsPathComponent-codec item.path [] all) in
    (
      bytes,
      rw
          (
            encode_each_lem IsPathComponent-codec item.path all,
            le→ltb max_field_data_size (4 + length path) fits,
          )
          refl,
      rw
          (
            take_span-append 2 (write_u16be size) body refl,
            read-write_u16be size (omega arith),
            le→ltb size 4 (omega arith),
            exact_size-eq-ok (2 + size) bytes (omega arith),
            read-write_u16be count (omega arith),
            take_all (size - 4) path (omega arith),
            whole,
            all_read,
            read-write_u16be flag (flag-lt item.folder),
            flag_read item.folder,
          )
          refl,
    )
