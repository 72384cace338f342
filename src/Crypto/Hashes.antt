-- ===== src/Crypto/Hashes.antt =====
-- src/appwarrior/crypto/src/sha1.cpp and md5.cpp: the two digests against their standards' padding
-- and blocks, and the size of their output.
use slopline.Base.{ℕ, ◌/◌, ◌^◌, ◌<◌, List, ◌++◌, All, All-append, length, ◌≡◌, refl, ap, arith}
use slopline.Core.Endian.{IsByte, write_u32be, write_u32le}
use slopline.Core.Endian.Laws.{write_u32be-IsByte, low_byte}
use slopline.Crypto.Digest.{digest_words}
use slopline.Crypto.Digest.Padding.{padding, fold_blocks}
use slopline.Crypto.Digest.Blocks.{digest_words_lem}
use slopline.Crypto.Sha1
use slopline.Crypto.Md5

abbrev pub sha1_padded : List ℕ → List ℕ
sha1_padded message = message ++ padding Sha1.length_bytes (length message)

abbrev pub md5_padded : List ℕ → List ℕ
md5_padded message = message ++ padding Md5.length_bytes (length message)

pub digest-padded :
    (message : List ℕ)
    → length message < 2 ^ 64
    → (Sha1.digest message
        ≡ Sha1.emit (
            fold_blocks Sha1.process_block
              (length (sha1_padded message) / 64)
              Sha1.start
              (sha1_padded message)))
      × (Md5.digest message
          ≡ Md5.emit (
              fold_blocks Md5.process_block
                (length (md5_padded message) / 64)
                Md5.start
                (md5_padded message)))
unfolding Sha1.digest Md5.digest
digest-padded message h = (
  ap Sha1.emit
      (digest_words_lem Sha1.process_block Sha1.length_bytes (λ n. refl) Sha1.start message h),
  ap Md5.emit (digest_words_lem Md5.process_block Md5.length_bytes (λ n. refl) Md5.start message h),
)

write_u32le-IsByte : (v : ℕ) → All IsByte (write_u32le v)
unfolding write_u32le
write_u32le-IsByte v =
    omega (arith, low_byte v, low_byte (v / 2 ^ 8), low_byte (v / 2 ^ 16), low_byte (v / 2 ^ 24))

words-IsByte :
    (write : ℕ → List ℕ)
    → ((v : ℕ) → All IsByte (write v))
    → (v : ℕ) (rest : List ℕ) → All IsByte rest
    → All IsByte (write v ++ rest)
words-IsByte write bytes v rest h = All-append IsByte (write v) rest (bytes v) h

pub length-sha1 : (message : List ℕ) → length (Sha1.digest message) ≡ 20
unfolding Sha1.digest write_u32be
length-sha1 message = refl

pub length-md5 : (message : List ℕ) → length (Md5.digest message) ≡ 16
unfolding Md5.digest write_u32le
length-md5 message = refl

pub sha1-IsByte : (message : List ℕ) → All IsByte (Sha1.digest message)
unfolding Sha1.digest
sha1-IsByte message =
    let s = digest_words Sha1.process_block Sha1.length_bytes Sha1.start message in
    let d =
      words-IsByte write_u32be write_u32be-IsByte s.d (write_u32be s.e) (write_u32be-IsByte s.e) in
    let c =
      words-IsByte write_u32be write_u32be-IsByte s.c (write_u32be s.d ++ write_u32be s.e) d in
    words-IsByte write_u32be write_u32be-IsByte s.a
      (write_u32be s.b ++ (write_u32be s.c ++ (write_u32be s.d ++ write_u32be s.e)))
      (words-IsByte write_u32be write_u32be-IsByte s.b
        (write_u32be s.c ++ (write_u32be s.d ++ write_u32be s.e)) c)

pub md5-IsByte : (message : List ℕ) → All IsByte (Md5.digest message)
unfolding Md5.digest
md5-IsByte message =
    let s = digest_words Md5.process_block Md5.length_bytes Md5.start message in
    let c =
      words-IsByte write_u32le write_u32le-IsByte s.c (write_u32le s.d) (write_u32le-IsByte s.d) in
    words-IsByte write_u32le write_u32le-IsByte s.a
      (write_u32le s.b ++ (write_u32le s.c ++ write_u32le s.d))
      (words-IsByte write_u32le write_u32le-IsByte s.b (write_u32le s.c ++ write_u32le s.d) c)
