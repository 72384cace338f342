-- ===== src/Tests/Hashes.antt =====
-- The digests at the test vectors of their standards, and what is built on them.
use slopline.Base.{replicate, ℕ, ◌/◌, true, List, [], ◌∷◌, length, ok, ◌≡◌, refl, arith}
use slopline.Crypto.Digest.Padding.{fold_blocks}
use slopline.Crypto.Hashes.{digest-padded, sha1_padded, md5_padded}
use slopline.Crypto.Blowfish.{Schedule, expand_key, encrypt_block, decrypt_block}
use slopline.Crypto.Blowfish.Shapes.{IsSchedule}
use slopline.Crypto.Blowfish.Schedules.{decrypt_block-encrypt_block}
use slopline.Protocol.Cipher.{TransactionCipher, new_cipher, encode}
use slopline.Protocol.Cipher.Keys.{IsKeyed}
use slopline.Protocol.Cipher.Steps.{listener}
use slopline.Protocol.Cipher.Suites.{Suite, suite_hmac, suite_hmac-IsKey, Used, Used-IsSchedule}
use slopline.Protocol.Constants.FieldId
use slopline.Protocol.FieldList.{FieldList, encode_field_list, decode_field_list, field_data}
use slopline.Protocol.Hope.{
  MacAlgorithm, CipherAlgorithm, build_server_stage2_reply, parse_server_mac_algorithm,
  parse_server_cipher_algorithm,
}
use slopline.Protocol.Hope.Agreement.{hope-agreement, side_cipher}
use slopline.Core.Endian.{read_u32be, write_u32be, read_u32le, write_u32le}
use slopline.Crypto.Digest.{
  store_at, absorb, marked_tail, finish_one, finish_two, finish, digest_words,
}
use slopline.Crypto.Sha1
use slopline.Crypto.Md5

-- The digests of the text abc.
sha1_abc :
    Sha1.digest (97 ∷ 98 ∷ 99 ∷ [])
    ≡ 0xa9 ∷ 0x99 ∷ 0x3e ∷ 0x36 ∷ 0x47 ∷ 0x06 ∷ 0x81 ∷ 0x6a ∷ 0xba ∷ 0x3e ∷ 0x25 ∷ 0x71 ∷ 0x78
      ∷ 0x50 ∷ 0xc2 ∷ 0x6c ∷ 0x9c ∷ 0xd0 ∷ 0xd8 ∷ 0x9d ∷ []
unfolding Sha1.digest Sha1.process_block Sha1.rounds Sha1.round Sha1.round_mix Sha1.schedule_words
    Sha1.block_words Sha1.rotate_left digest_words finish finish_one finish_two marked_tail absorb
    store_at read_u32be write_u32be
sha1_abc = refl

md5_abc :
    Md5.digest (97 ∷ 98 ∷ 99 ∷ [])
    ≡ 0x90 ∷ 0x01 ∷ 0x50 ∷ 0x98 ∷ 0x3c ∷ 0xd2 ∷ 0x4f ∷ 0xb0 ∷ 0xd6 ∷ 0x96 ∷ 0x3f ∷ 0x7d ∷ 0x28
      ∷ 0xe1 ∷ 0x7f ∷ 0x72 ∷ []
unfolding Md5.digest Md5.process_block Md5.rounds Md5.round Md5.round_mix Md5.block_words
    Md5.rotate_left digest_words finish finish_one finish_two marked_tail absorb store_at read_u32le
    write_u32le
md5_abc = refl

abbrev abc : List ℕ
abc = 97 ∷ 98 ∷ 99 ∷ []

digest-padded_example :
    (Sha1.digest abc
      ≡ Sha1.emit (
          fold_blocks Sha1.process_block
            (length (sha1_padded abc) / 64)
            Sha1.start
            (sha1_padded abc)))
    × (Md5.digest abc
        ≡ Md5.emit (
            fold_blocks Md5.process_block
              (length (md5_padded abc) / 64)
              Md5.start
              (md5_padded abc)))
digest-padded_example = digest-padded abc (omega arith)

abbrev test_key : List ℕ
test_key = 1 ∷ 35 ∷ 69 ∷ 103 ∷ []

abbrev test_block : List ℕ
test_block = 254 ∷ 220 ∷ 186 ∷ 152 ∷ 118 ∷ 84 ∷ 50 ∷ 16 ∷ []

decrypt_block-encrypt_block_example :
    decrypt_block (expand_key test_key) (encrypt_block (expand_key test_key) test_block)
    ≡ test_block
decrypt_block-encrypt_block_example =
    decrypt_block-encrypt_block test_key test_block (omega arith) refl (omega arith)

abbrev sha1_cipher : TransactionCipher Schedule
sha1_cipher = new_cipher (suite_hmac Suite.sha1) expand_key encrypt_block abc test_key true

abbrev used_cipher : TransactionCipher Schedule
used_cipher =
    (encode (suite_hmac Suite.sha1) expand_key encrypt_block sha1_cipher test_block abc 3).2

Used-IsSchedule_example :
    IsKeyed 20 (suite_hmac Suite.sha1) (suite_hmac-IsKey Suite.sha1) expand_key used_cipher
    × (IsSchedule used_cipher.encode_schedule × IsSchedule used_cipher.decode_schedule)
Used-IsSchedule_example =
    Used-IsSchedule Suite.sha1 used_cipher
      (Used.encoded sha1_cipher test_block abc 3 (Used.begun abc test_key true))

abbrev test_session_key : List ℕ
test_session_key = replicate 32 0xa5

hope-agreement_example :
    (bytes : List ℕ) × (reply : FieldList) × (encode_field_list
        (build_server_stage2_reply test_session_key MacAlgorithm.hmac_md5)
      ≡ ok bytes)
    × (decode_field_list bytes ≡ ok reply)
    × (parse_server_mac_algorithm (field_data reply FieldId.mac_alg) ≡ ok MacAlgorithm.hmac_md5)
    × (parse_server_cipher_algorithm (field_data reply FieldId.server_cipher_alg)
        ≡ ok CipherAlgorithm.blowfish)
    × (let client =
          (side_cipher MacAlgorithm.hmac_md5 abc (field_data reply FieldId.session_key)).0 in
        let server = (side_cipher MacAlgorithm.hmac_md5 abc test_session_key).1 in
        (server ≡ listener client server) × (client ≡ listener server client))
hope-agreement_example =
    hope-agreement abc test_session_key MacAlgorithm.hmac_md5 (omega arith) (omega arith)
