-- ===== src/Protocol/Transfer/Resumption.antt =====
-- The resume record is read back, and its offset is that of the last data entry.
use slopline.Base.{
  ℕ, ◌+◌, ◌*◌, ◌%◌, ◌^◌, ◌≤◌, ◌<◌, List, [], ◌∷◌, ◌++◌, replicate, le→ltb, lt→ltb, eq→==, ne→==,
  ◌≢◌, length, All, ok, err, ◌≡◌, refl, sym, ap, ◌∙◌, append-nil, arith,
}
use slopline.Core.Errors.{guard, EncodeError, take_span-append, exact_size-eq-ok}
use slopline.Core.Endian.{write_u16be, write_u32be}
use slopline.Core.Endian.Laws.{read-write_u16be, read-write_u32be}
use slopline.Core.Sequence.{decode_each}
use slopline.Core.Sequence.Codec.{IsCodec, written_each, encode_each_lem, decode_each_lem}
use slopline.Protocol.Constants.{max_field_count, max_field_data_size, folder_download_resume_file}
use slopline.Protocol.Transfer.{
  ResumeEntry, ResumeData, encode_resume_entry, decode_resume_entry, encode_resume_data,
  try_decode_resume_data, resume_data_format, encode_folder_download_resume,
  try_decode_folder_download_resume, data_resume_size, data_resume_size_from, fork_type_data,
}
use native.Mathlib.Nat.{mod-eq_of_lt}

abbrev IsEntry : ResumeEntry → Type 0
IsEntry entry = (entry.fork < 2 ^ 32) × (entry.data_size < 2 ^ 32)

abbrev entry_bytes : ResumeEntry → List ℕ
entry_bytes entry =
    write_u32be entry.fork ++ (write_u32be entry.data_size ++ (write_u32be 0 ++ write_u32be 0))

decode-entry_bytes :
    (entry : ResumeEntry) (rest : List ℕ)
    → IsEntry entry
    → decode_resume_entry (entry_bytes entry ++ rest) ≡ ok (entry, rest)
unfolding decode_resume_entry write_u32be
decode-entry_bytes entry rest (fork_fits, size_fits) =
    rw
      (
        take_span-append 16 (entry_bytes entry) rest refl,
        read-write_u32be entry.fork fork_fits,
        read-write_u32be entry.data_size size_fits,
      )
      refl

IsEntry-codec : IsCodec encode_resume_entry decode_resume_entry IsEntry entry_bytes
unfolding encode_resume_entry
IsEntry-codec = record { writes = λ entry h. refl; reads = decode-entry_bytes }

length-entries :
    (entries : List ResumeEntry) → length (written_each entry_bytes entries) ≡ length entries * 16
unfolding write_u32be
length-entries [] = refl
length-entries (entry ∷ entries) = omega (arith, length-entries entries)

abbrev pub IsResume : ResumeData → Type 0
IsResume resume =
    (resume.version ≡ 1) × (length resume.entries ≤ max_field_count) × All IsEntry resume.entries

abbrev resume_bytes : ResumeData → List ℕ
resume_bytes resume =
    (write_u32be resume_data_format
      ++ (write_u16be resume.version
          ++ (replicate 34 0 ++ write_u16be (length resume.entries % 2 ^ 16))))
    ++ written_each entry_bytes resume.entries

encode_resume_data_lem :
    (resume : ResumeData) → IsResume resume → encode_resume_data resume ≡ ok (resume_bytes resume)
unfolding encode_resume_data
encode_resume_data_lem resume (version, few, all) = rw (
  le→ltb max_field_count (length resume.entries) few,
  encode_each_lem IsEntry-codec resume.entries all,
)

length-resume_bytes :
    (resume : ResumeData) → length (resume_bytes resume) ≡ 42 + length resume.entries * 16
unfolding write_u16be write_u32be
length-resume_bytes resume = omega (arith, length-entries resume.entries)

decode-resume_bytes :
    (resume : ResumeData)
    → IsResume resume
    → try_decode_resume_data (resume_bytes resume) ≡ ok resume
unfolding try_decode_resume_data guard write_u16be write_u32be
decode-resume_bytes resume (version, few, all) =
    let count : ℕ = length resume.entries % 2 ^ 16 in
    let whole : count ≡ length resume.entries = mod-eq_of_lt (omega arith) in
    let all_read : decode_each decode_resume_entry (length resume.entries)
          (written_each entry_bytes resume.entries)
        ≡ ok (resume.entries, []) =
      rw (append-nil) at (decode_each_lem IsEntry-codec resume.entries [] all) in
    let head : List ℕ =
      write_u32be resume_data_format
      ++ (write_u16be resume.version ++ (replicate 34 0 ++ write_u16be count)) in
    rw
      (
        take_span-append 42 head (written_each entry_bytes resume.entries) refl,
        read-write_u32be resume_data_format (omega arith),
        read-write_u16be resume.version (omega arith),
        eq→== resume.version 1 version,
        read-write_u16be count (omega arith),
        exact_size-eq-ok (42 + count * 16) (head ++ written_each entry_bytes resume.entries)
            (length-resume_bytes resume ∙ ap (λ (n : ℕ). 42 + n * 16) (sym whole)),
        whole,
        all_read,
      )
      refl

-- A resume record of version 1 with at most 65535 entries of 32-bit words is encoded, and read back
-- from its bytes.
pub decode-encode_resume_data :
    (resume : ResumeData)
    → IsResume resume
    → (bytes : List ℕ) × (encode_resume_data resume ≡ ok bytes)
      × (try_decode_resume_data bytes ≡ ok resume)
decode-encode_resume_data resume h =
    (resume_bytes resume, encode_resume_data_lem resume h, decode-resume_bytes resume h)

-- Inside the command that resumes a file, a record of at most 4093 entries is sent and read back;
-- one entry more makes a record that no command can hold.
pub decode-encode_folder_download_resume :
    (resume : ResumeData)
    → IsResume resume
    → ((length resume.entries ≤ 4093)
        → (bytes : List ℕ) × (encode_folder_download_resume resume ≡ ok bytes)
          × (try_decode_folder_download_resume bytes ≡ ok resume))
      × ((4093 < length resume.entries)
          → encode_folder_download_resume resume ≡ err EncodeError.element_too_large)
unfolding encode_folder_download_resume
decode-encode_folder_download_resume resume h =
    let rflt : List ℕ = resume_bytes resume in
    let size : ℕ = length rflt % 2 ^ 16 in
    let head : List ℕ = write_u16be folder_download_resume_file ++ write_u16be size in
    (
      λ small.
          let whole : size ≡ length rflt =
            mod-eq_of_lt (omega (arith, length-resume_bytes resume)) in
          (
            head ++ rflt,
            rw
                (
                  encode_resume_data_lem resume h,
                  le→ltb max_field_data_size (length rflt)
                      (omega (arith, length-resume_bytes resume)),
                )
                refl,
            unfold try_decode_folder_download_resume guard write_u16be in
                rw
                  (
                    take_span-append 4 head rflt refl,
                    read-write_u16be folder_download_resume_file (omega arith),
                    read-write_u16be size (omega arith),
                    exact_size-eq-ok size rflt (sym whole),
                    decode-resume_bytes resume h,
                  )
                  refl,
          ),
      λ large.
          rw
            (
              encode_resume_data_lem resume h,
              lt→ltb max_field_data_size (length rflt) (omega (arith, length-resume_bytes resume)),
            )
            refl,
    )

resume_size-append :
    (front back : List ResumeEntry) (size : ℕ)
    → data_resume_size_from size (front ++ back)
      ≡ data_resume_size_from (data_resume_size_from size front) back
unfolding data_resume_size_from
resume_size-append [] back size = refl
resume_size-append (entry ∷ front) back size = resume_size-append front back _

-- The entries of other forks.
resume_size_kept :
    (size : ℕ) (entries : List ResumeEntry)
    → All (λ entry. entry.fork ≢ fork_type_data) entries
    → data_resume_size_from size entries ≡ size
unfolding data_resume_size_from
resume_size_kept size [] h = refl
resume_size_kept size (entry ∷ entries) (other, h) =
    rw (ne→== entry.fork fork_type_data other) (resume_size_kept size entries h)

-- The offset to resume the data fork at is the size of its last entry, whatever stands before it
-- and whichever other forks stand behind it; without an entry of that fork it is 0.
pub data_resume_size_last :
    (version : ℕ) (front back : List ResumeEntry) (entry : ResumeEntry)
    → All (λ other. other.fork ≢ fork_type_data) back
    → ((entry.fork ≡ fork_type_data)
        → data_resume_size (record { version = version; entries = front ++ (entry ∷ back) })
          ≡ entry.data_size)
      × (data_resume_size (record { version = version; entries = back }) ≡ 0)
unfolding data_resume_size
data_resume_size_last version front back entry h = (
  λ e.
      resume_size-append front (entry ∷ back) 0
      ∙ unfold data_resume_size_from in
        rw (eq→== entry.fork fork_type_data e) (resume_size_kept entry.data_size back h),
  resume_size_kept 0 back h,
)
