-- ===== src/Protocol/Transfer.antt =====
-- src/hotline/protocol/include/hotline/protocol/transfer.h and src/transfer.cpp: the flat file, the
-- resume record and the items of a folder download.
pub mod Forks
pub mod Resumption
pub mod Folder
pub mod Info
use slopline.Base.{
  ℕ, ◌+◌, ◌*◌, ◌%◌, ◌^◌, Bool, true, false, not, List, [], ◌∷◌, ◌++◌, replicate, ltb, ◌==◌,
  if◌then◌else◌, length, take, drop, subspan, Expected, ok, err, ◌>>=◌,
}
use slopline.Core.Errors.{guard, DecodeError, EncodeError, take_span, expect_end, exact_size}
use slopline.Core.Endian.{read_u16be, read_u32be, write_u16be, write_u32be, four_cc}
use slopline.Core.Sequence.{decode_each, encode_each}
use slopline.Protocol.Constants.{max_field_count, max_field_data_size, folder_download_resume_file}

abbrev pub flat_file_format : ℕ
flat_file_format = four_cc b'F' b'I' b'L' b'P'

abbrev pub fork_type_data : ℕ
fork_type_data = four_cc b'D' b'A' b'T' b'A'

abbrev pub resume_data_format : ℕ
resume_data_format = four_cc b'R' b'F' b'L' b'T'

pub record FlatFileFork : Type 0 where
  pub type : ℕ
  pub compression_type : ℕ
  pub content : List ℕ

pub record FlatFile : Type 0 where
  pub version : ℕ
  pub forks : List FlatFileFork

-- The bytes that the loop of `encode_flat_file` appends for a fork.
pub encode_fork : FlatFileFork → Expected EncodeError (List ℕ)
encode_fork fork = ok (
    (write_u32be fork.type
      ++ (write_u32be fork.compression_type
          ++ (write_u32be 0 ++ write_u32be (length fork.content % 2 ^ 32))))
    ++ fork.content)

pub encode_flat_file : FlatFile → Expected EncodeError (List ℕ)
encode_flat_file file =
    if ltb max_field_count (length file.forks) then err EncodeError.count_too_large else do
      forks ← encode_each encode_fork file.forks
      ok (
          (write_u32be flat_file_format
            ++ (write_u16be file.version
                ++ (replicate 16 0 ++ write_u16be (length file.forks % 2 ^ 16))))
          ++ forks)

pub decode_fork : List ℕ → Expected DecodeError (FlatFileFork × List ℕ)
decode_fork bytes = do
  (head, bytes) ← take_span 16 bytes
  (content, bytes) ← take_span (read_u32be (subspan 12 4 head)) bytes
  ok (
    record {
      type = read_u32be (take 4 head);
      compression_type = read_u32be (subspan 4 4 head);
      content = content;
    },
    bytes,
  )

pub try_decode_flat_file : List ℕ → Expected DecodeError FlatFile
unfolding guard
try_decode_flat_file bytes = do
  (head, bytes) ← take_span 24 bytes
  _ ← guard (read_u32be (take 4 head) == flat_file_format) DecodeError.wrong_format_tag
  (forks, rest) ← decode_each decode_fork (read_u16be (subspan 22 2 head)) bytes
  _ ← expect_end rest
  ok (record { version = read_u16be (subspan 4 2 head); forks = forks })

pub record ResumeEntry : Type 0 where
  pub fork : ℕ
  pub data_size : ℕ

pub record ResumeData : Type 0 where
  pub version : ℕ
  pub entries : List ResumeEntry

pub encode_resume_entry : ResumeEntry → Expected EncodeError (List ℕ)
encode_resume_entry entry =
    ok (write_u32be entry.fork ++ (write_u32be entry.data_size ++ (write_u32be 0 ++ write_u32be 0)))

pub encode_resume_data : ResumeData → Expected EncodeError (List ℕ)
encode_resume_data resume =
    if ltb max_field_count (length resume.entries) then err EncodeError.count_too_large else do
      entries ← encode_each encode_resume_entry resume.entries
      ok (
          (write_u32be resume_data_format
            ++ (write_u16be resume.version
                ++ (replicate 34 0 ++ write_u16be (length resume.entries % 2 ^ 16))))
          ++ entries)

-- The entry that starts at the front of `bytes`; the reserved words are skipped.
pub decode_resume_entry : List ℕ → Expected DecodeError (ResumeEntry × List ℕ)
decode_resume_entry bytes = do
  (entry, bytes) ← take_span 16 bytes
  ok (
    record { fork = read_u32be (take 4 entry); data_size = read_u32be (subspan 4 4 entry) },
    bytes,
  )

-- The size is tested before the loop, in which no read is then out of range.
pub try_decode_resume_data : List ℕ → Expected DecodeError ResumeData
unfolding guard
try_decode_resume_data bytes = do
  (head, body) ← take_span 42 bytes
  _ ← guard (read_u32be (take 4 head) == resume_data_format) DecodeError.wrong_format_tag
  _ ← guard (read_u16be (subspan 4 2 head) == 1) DecodeError.unsupported_version
  let count = read_u16be (subspan 40 2 head)
  _ ← exact_size (42 + count * 16) bytes
  (entries, _) ← decode_each decode_resume_entry count body
  ok (record { version = read_u16be (subspan 4 2 head); entries = entries })

-- `size` is the loop's variable: the last entry of the data fork wins.
data_resume_size_from : ℕ → List ResumeEntry → ℕ
data_resume_size_from size [] = size
data_resume_size_from size (entry ∷ entries) =
    data_resume_size_from (if entry.fork == fork_type_data then entry.data_size else size) entries

pub data_resume_size : ResumeData → ℕ
unfolding data_resume_size_from
data_resume_size resume = data_resume_size_from 0 resume.entries

pub encode_folder_download_command : ℕ → List ℕ
encode_folder_download_command action = write_u16be action

pub encode_folder_download_resume : ResumeData → Expected EncodeError (List ℕ)
encode_folder_download_resume resume = do
  rflt ← encode_resume_data resume
  if ltb max_field_data_size (length rflt)
      then err EncodeError.element_too_large
      else ok
          ((write_u16be folder_download_resume_file ++ write_u16be (length rflt % 2 ^ 16)) ++ rflt)

pub try_decode_folder_download_resume : List ℕ → Expected DecodeError ResumeData
unfolding guard
try_decode_folder_download_resume bytes = do
  (head, body) ← take_span 4 bytes
  _ ← guard (read_u16be (take 2 head) == folder_download_resume_file) DecodeError.wrong_format_tag
  body ← exact_size (read_u16be (subspan 2 2 head)) body
  try_decode_resume_data body
