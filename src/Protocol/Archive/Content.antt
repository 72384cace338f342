-- ===== src/Protocol/Archive/Content.antt =====
-- src/hotline/protocol/src/archive.cpp: what `decompress_archive_entry` answers, whatever zlib does.
use slopline.Base.{
  ℕ, ◌≤◌, List, ◌++◌, ltb, ltb→le, le→ltb, ◌==◌, eq→==, ne→==, ==_iff, Bool-cases, inl, inr, ◌⊎◌,
  ◌↔◌, ap₂, length, drop, drop_all, replicate, length-replicate, append-nil, ok, ok-injective, ◌≡◌,
  sym, ap, ◌∙◌, arith,
}
use slopline.Protocol.Archive.{
  ArchiveEntry, decompress_archive_entry, inflated, archive_compression_raw,
  archive_compression_zlib, max_archive_entry_decompressed_size,
}

-- What an entry holds within the cap: a raw payload of the declared size, or what zlib writes for it
-- without an error and in the declared size.
abbrev pub Holds : (ℕ → List ℕ → ℕ × List ℕ) → ArchiveEntry → List ℕ → Type 0
Holds uncompress entry content =
    (entry.decompressed_size ≤ max_archive_entry_decompressed_size)
    × (length content ≡ entry.decompressed_size)
    × (((entry.compression_type ≡ archive_compression_raw) × (entry.payload ≡ content))
        ⊎ ((entry.compression_type ≡ archive_compression_zlib)
            × (uncompress entry.decompressed_size entry.payload ≡ (0, content))))

module _ (uncompress : ℕ → List ℕ → ℕ × List ℕ) where
  -- The buffer, where zlib has written all of it.
  whole_buffer :
      (written : List ℕ) (size : ℕ)
      → length written ≡ size
      → written ++ drop (length written) (replicate size 0) ≡ written
  whole_buffer written size e =
      ap (◌++◌ written) (
        drop_all (length written) (replicate size 0)
          (omega (arith, length-replicate {A = ℕ} size 0)))
      ∙ append-nil written

  inflated→ :
      (entry : ArchiveEntry) (content : List ℕ)
      → inflated uncompress entry ≡ ok content
      → (length content ≡ entry.decompressed_size)
        × (uncompress entry.decompressed_size entry.payload ≡ (0, content))
  unfolding inflated
  inflated→ entry content e =
      let r = uncompress entry.decompressed_size entry.payload in
      elim (Bool-cases (r.0 == 0)) [
        | inr bad ↦ absurd (cc (rw bad at e))
        | inl fine ↦ elim (Bool-cases (length r.1 == entry.decompressed_size)) [
          | inr short ↦ absurd (cc (rw (fine, short) at e))
          | inl full ↦
              let sized = (==_iff (length r.1) entry.decompressed_size).0 full in
              let same : r.1 ≡ content =
                sym (whole_buffer r.1 entry.decompressed_size sized)
                ∙ ok-injective (rw (fine, full) at e) in
              (
                ap length (sym same) ∙ sized,
                ap₂ (λ (code : ℕ) (written : List ℕ). (code, written)) ((==_iff r.0 0).0 fine) same,
              )
        ]
      ]

  →inflated :
      (entry : ArchiveEntry) (content : List ℕ)
      → length content ≡ entry.decompressed_size
      → uncompress entry.decompressed_size entry.payload ≡ (0, content)
      → inflated uncompress entry ≡ ok content
  unfolding inflated
  →inflated entry content sized e =
      rw (e, eq→== (length content) entry.decompressed_size sized)
        (ap ok (whole_buffer content entry.decompressed_size sized))

  decompress→ :
      (entry : ArchiveEntry) (content : List ℕ)
      → decompress_archive_entry uncompress entry ≡ ok content
      → Holds uncompress entry content
  unfolding decompress_archive_entry
  decompress→ entry content e =
      elim (Bool-cases (ltb max_archive_entry_decompressed_size entry.decompressed_size)) [
        | inl over ↦ absurd (cc (rw over at e))
        | inr within ↦ elim (Bool-cases (entry.compression_type == archive_compression_raw)) [
          | inl raw ↦ elim (Bool-cases (length entry.payload == entry.decompressed_size)) [
            | inr other ↦ absurd (cc (rw (within, raw, other) at e))
            | inl full ↦
                let same : entry.payload ≡ content = ok-injective (rw (within, raw, full) at e) in
                (
                  ltb→le max_archive_entry_decompressed_size entry.decompressed_size within,
                  ap length (sym same)
                      ∙ (==_iff (length entry.payload) entry.decompressed_size).0 full,
                  inl ((==_iff entry.compression_type archive_compression_raw).0 raw, same),
                )
          ]
          | inr packed ↦ elim (Bool-cases (entry.compression_type == archive_compression_zlib)) [
            | inr other ↦ absurd (cc (rw (within, packed, other) at e))
            | inl zlib ↦
                let (sized, written) = inflated→ entry content (rw (within, packed, zlib) at e) in
                (
                  ltb→le max_archive_entry_decompressed_size entry.decompressed_size within,
                  sized,
                  inr ((==_iff entry.compression_type archive_compression_zlib).0 zlib, written),
                )
          ]
        ]
      ]

  →decompress :
      (entry : ArchiveEntry) (content : List ℕ)
      → Holds uncompress entry content
      → decompress_archive_entry uncompress entry ≡ ok content
  unfolding decompress_archive_entry
  →decompress entry content (within, sized, inl (raw, same)) =
      rw
        (
          le→ltb max_archive_entry_decompressed_size entry.decompressed_size within,
          eq→== entry.compression_type archive_compression_raw raw,
          eq→== (length entry.payload) entry.decompressed_size (ap length same ∙ sized),
        )
        (ap ok same)
  →decompress entry content (within, sized, inr (zlib, written)) =
      rw
        (
          le→ltb max_archive_entry_decompressed_size entry.decompressed_size within,
          ne→== entry.compression_type archive_compression_raw (λ raw. absurd (omega arith)),
          eq→== entry.compression_type archive_compression_zlib zlib,
        )
        (→inflated entry content sized written)

  -- The call gives a content exactly if the entry declares at most 64 MiB, the content has the declared
  -- size, and either the entry is raw and the content is its payload, or it is of type zlib and the
  -- content is what zlib writes without an error.
  pub decompress_archive_entry_iff :
      (entry : ArchiveEntry) (content : List ℕ)
      → (decompress_archive_entry uncompress entry ≡ ok content) ↔ Holds uncompress entry content
  decompress_archive_entry_iff entry content =
      (decompress→ entry content, →decompress entry content)
