-- ===== src/Protocol/AccessMask.antt =====
-- src/hotline/protocol/include/hotline/protocol/payload.h, AccessMask: privilege p is bit 63 - p of a
-- 64-bit word, which travels big-endian.
pub mod Laws
pub mod Wire
use slopline.Base.{
  ℕ, ◌-◌, ◌/◌, ◌^◌, Bool, not, List, ◌==◌, if◌then◌else◌, bit_and, bit_or, Expected, ok, ◌>>=◌,
}
use slopline.Core.Errors.{DecodeError, exact_size}
use slopline.Core.Endian.{read_u64be, write_u64be}
use slopline.Protocol.Constants.AccessPrivilege.{AccessPrivilege, index}

pub record AccessMask : Type 0 where
  pub bits : ℕ

-- The default constructor's member.
abbrev pub no_access : AccessMask
no_access = record { bits = 0 }

unfoldable pub has : AccessMask → AccessPrivilege → Bool
has mask privilege = not (bit_and (mask.bits / 2 ^ (63 - index privilege)) 1 == 0)

-- `~(1 << k)` is the word of ones without its bit k.
unfoldable pub set : AccessMask → AccessPrivilege → Bool → AccessMask
set mask privilege value =
    let bit = 2 ^ (63 - index privilege) in
    if value
    then record { bits = bit_or mask.bits bit }
    else record { bits = bit_and mask.bits (2 ^ 64 - 1 - bit) }

pub clear : AccessMask → AccessMask
clear mask = record { bits = 0 }

pub fill : AccessMask → AccessMask
fill mask = record { bits = 2 ^ 64 - 1 }

unfoldable pub encode_access_mask : AccessMask → List ℕ
encode_access_mask mask = write_u64be mask.bits

pub decode_access_mask : List ℕ → AccessMask
decode_access_mask bytes = record { bits = read_u64be bytes }

pub try_decode_access_mask : List ℕ → Expected DecodeError AccessMask
try_decode_access_mask bytes = do bytes ← exact_size 8 bytes; ok (decode_access_mask bytes)
