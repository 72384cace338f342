-- ===== src/Protocol/Transfer/Forks.antt =====
-- The flat file is read back from its bytes.
use slopline.Base.{
  ℕ, ◌%◌, ◌^◌, ◌≤◌, ◌<◌, List, [], ◌++◌, replicate, le→ltb, length, All, ok, ◌≡◌, refl, sym,
  append-nil, arith,
}
use slopline.Core.Errors.{guard, expect_end, take_span-append}
use slopline.Core.Endian.{write_u16be, write_u32be}
use slopline.Core.Endian.Laws.{read-write_u16be, read-write_u32be}
use slopline.Core.Sequence.{decode_each}
use slopline.Core.Sequence.Codec.{IsCodec, written_each, encode_each_lem, decode_each_lem}
use slopline.Protocol.Constants.{max_field_count}
use slopline.Protocol.Transfer.{
  FlatFileFork, FlatFile, encode_fork, decode_fork, encode_flat_file, try_decode_flat_file,
  flat_file_format,
}
use native.Mathlib.Nat.{mod-eq_of_lt}

abbrev IsFork : FlatFileFork → Type 0
IsFork fork =
    (fork.type < 2 ^ 32) × (fork.compression_type < 2 ^ 32) × (length fork.content < 2 ^ 32)

abbrev fork_bytes : FlatFileFork → List ℕ
fork_bytes fork =
    (write_u32be fork.type
      ++ (write_u32be fork.compression_type
          ++ (write_u32be 0 ++ write_u32be (length fork.content % 2 ^ 32))))
    ++ fork.content

decode-fork_bytes :
    (fork : FlatFileFork) (rest : List ℕ)
    → IsFork fork
    → decode_fork (fork_bytes fork ++ rest) ≡ ok (fork, rest)
unfolding decode_fork write_u32be
decode-fork_bytes fork rest (type_fits, compression_fits, size_fits) =
    let size : ℕ = length fork.content % 2 ^ 32 in
    let whole : size ≡ length fork.content = mod-eq_of_lt size_fits in
    let head : List ℕ =
      write_u32be fork.type
      ++ (write_u32be fork.compression_type ++ (write_u32be 0 ++ write_u32be size)) in
    rw
      (
        take_span-append 16 head (fork.content ++ rest) refl,
        read-write_u32be size (omega arith),
        take_span-append size fork.content rest (sym whole),
        read-write_u32be fork.type type_fits,
        read-write_u32be fork.compression_type compression_fits,
      )
      refl

IsFork-codec : IsCodec encode_fork decode_fork IsFork fork_bytes
unfolding encode_fork
IsFork-codec = record { writes = λ fork h. refl; reads = decode-fork_bytes }

-- The files that the format can hold.
abbrev pub IsFlatFile : FlatFile → Type 0
IsFlatFile file =
    (file.version < 2 ^ 16) × (length file.forks ≤ max_field_count) × All IsFork file.forks

-- A flat file with a 16-bit version and at most 65535 forks, each of 32-bit types and less than
-- 2 ^ 32 bytes, is encoded, and the decoder gives it back from its bytes.
pub decode-encode_flat_file :
    (file : FlatFile)
    → IsFlatFile file
    → (bytes : List ℕ) × (encode_flat_file file ≡ ok bytes) × (try_decode_flat_file bytes ≡ ok file)
unfolding encode_flat_file try_decode_flat_file guard write_u16be write_u32be
decode-encode_flat_file file (version_fits, few, all) =
    let count : ℕ = length file.forks % 2 ^ 16 in
    let whole : count ≡ length file.forks = mod-eq_of_lt (omega arith) in
    let head : List ℕ =
      write_u32be flat_file_format
      ++ (write_u16be file.version ++ (replicate 16 0 ++ write_u16be count)) in
    let all_read : decode_each decode_fork (length file.forks) (written_each fork_bytes file.forks)
        ≡ ok (file.forks, []) =
      rw (append-nil) at (decode_each_lem IsFork-codec file.forks [] all) in
    (
      head ++ written_each fork_bytes file.forks,
      rw
          (
            le→ltb max_field_count (length file.forks) few,
            encode_each_lem IsFork-codec file.forks all,
          )
          refl,
      unfold expect_end in
          rw
            (
              take_span-append 24 head (written_each fork_bytes file.forks) refl,
              read-write_u32be flat_file_format (omega arith),
              read-write_u16be count (omega arith),
              whole,
              all_read,
              read-write_u16be file.version version_fits,
            )
            refl,
    )
