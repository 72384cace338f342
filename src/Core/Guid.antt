-- ===== src/Core/Guid.antt =====
-- src/appwarrior/core/include/appwarrior/core/guid.h: an identifier of 16 bytes.
use slopline.Base.{
  ℕ, ◌^◌, ◌<◌, List, ◌∷◌, ◌++◌, get_or, take, take_all, subspan, length, Expected, ok, ◌>>=◌, ◌≡◌,
  arith,
}
use slopline.Core.Errors.{DecodeError, exact_size, exact_size-eq-ok}
use slopline.Core.Endian.{read_u16be, read_u32be, write_u16be, write_u32be}
use slopline.Core.Endian.Laws.{read-write_u16be, read-write_u32be}

pub record Guid : Type 0 where
  pub time_low : ℕ
  pub time_mid : ℕ
  pub time_hi_and_version : ℕ
  pub clock_seq_hi_and_reserved : ℕ
  pub clock_seq_low : ℕ
  pub node : List ℕ

unfoldable pub encode : Guid → List ℕ
encode guid =
    write_u32be guid.time_low
    ++ (write_u16be guid.time_mid
        ++ (write_u16be guid.time_hi_and_version
            ++ (guid.clock_seq_hi_and_reserved ∷ guid.clock_seq_low ∷ guid.node)))

unfoldable pub decode : List ℕ → Guid
decode bytes = record {
  time_low = read_u32be (take 4 bytes);
  time_mid = read_u16be (subspan 4 2 bytes);
  time_hi_and_version = read_u16be (subspan 6 2 bytes);
  clock_seq_hi_and_reserved = get_or bytes 8 0;
  clock_seq_low = get_or bytes 9 0;
  node = subspan 10 6 bytes;
}

unfoldable pub try_decode : List ℕ → Expected DecodeError Guid
try_decode bytes = do bytes ← exact_size 16 bytes; ok (decode bytes)

-- The values that the members' types hold.
pub record IsGuid (guid : Guid) : Type 0 where
  pub time_low_fits : guid.time_low < 2 ^ 32
  pub time_mid_fits : guid.time_mid < 2 ^ 16
  pub time_hi_fits : guid.time_hi_and_version < 2 ^ 16
  pub node_size : length guid.node ≡ 6

-- An identifier whose members fit their types is read back from its 16 bytes.
pub try_decode-encode : (guid : Guid) → IsGuid guid → try_decode (encode guid) ≡ ok guid
unfolding try_decode decode encode write_u16be write_u32be
try_decode-encode guid h = rw (exact_size-eq-ok 16 (encode guid) (omega (arith, h.node_size))) (λ i.
    ok (record {
      time_low = read-write_u32be guid.time_low h.time_low_fits i;
      time_mid = read-write_u16be guid.time_mid h.time_mid_fits i;
      time_hi_and_version = read-write_u16be guid.time_hi_and_version h.time_hi_fits i;
      clock_seq_hi_and_reserved = guid.clock_seq_hi_and_reserved;
      clock_seq_low = guid.clock_seq_low;
      node = take_all 6 guid.node (omega (arith, h.node_size)) i;
    }))
