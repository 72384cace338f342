-- ===== src/Protocol/Transfer/Info.antt =====
-- src/hotline/protocol/src/transfer.cpp: the content of a flat file's info fork. A std::string is the
-- list of its bytes.
pub mod RoundTrip
use slopline.Base.{
  ℕ, ◌+◌, ◌-◌, ◌%◌, ◌^◌, ◌≤◌, ◌<◌, ◌||◌, List, [], ◌∷◌, ◌++◌, ltb, le→ltb, if◌then◌else◌, length,
  length-append, take, drop, take-append, drop-append, take_all, drop_past, subspan, Expected, ok,
  err, ◌≡◌, refl, sym, ap, ◌∙◌, arith,
}
use slopline.Core.Errors.{DecodeError, EncodeError}
use slopline.Core.Endian.{read_u16be, read_u32be, write_u16be, write_u32be}
use slopline.Core.Endian.Laws.{read-write_u16be, read-write_u32be, read_u16be-front}
use slopline.Protocol.Constants.{max_field_data_size}
use slopline.Protocol.Payload.{DateTimeStamp, IsStamp, decode_date_time_stamp}
use native.Mathlib.Nat.{mod-eq_of_lt}

pub record FlatFileInfo : Type 0 where
  pub platform : ℕ
  pub type_sig : ℕ
  pub creator_sig : ℕ
  pub flags : ℕ
  pub platform_flags : ℕ
  pub reserved : List ℕ
  pub create_date : DateTimeStamp
  pub modify_date : DateTimeStamp
  pub name_script : ℕ
  pub name : List ℕ
  pub comment : List ℕ

-- The 20 bytes before the reserved ones, and the 20 behind them.
abbrev pub info_front : FlatFileInfo → List ℕ
info_front info =
    write_u32be info.platform
    ++ (write_u32be info.type_sig
        ++ (write_u32be info.creator_sig
            ++ (write_u32be info.flags ++ write_u32be info.platform_flags)))

abbrev pub stamp_bytes : DateTimeStamp → List ℕ
stamp_bytes stamp = write_u16be stamp.year ++ (write_u16be stamp.msecs ++ write_u32be stamp.seconds)

abbrev pub info_back : FlatFileInfo → List ℕ
info_back info =
    stamp_bytes info.create_date
    ++ (stamp_bytes info.modify_date
        ++ (write_u16be info.name_script ++ write_u16be (length info.name % 2 ^ 16)))

unfoldable pub encode_info_fork : FlatFileInfo → Expected EncodeError (List ℕ)
encode_info_fork info =
    if ltb max_field_data_size (length info.name) || ltb max_field_data_size (length info.comment)
    then err EncodeError.string_too_long
    else ok (
        info_front info
        ++ (info.reserved
            ++ (info_back info
                ++ (info.name ++ (write_u16be (length info.comment % 2 ^ 16) ++ info.comment)))))

-- With both sizes read. The two stamps are decoded from eight bytes each, which cannot fail.
read_info : List ℕ → ℕ → ℕ → FlatFileInfo
read_info bytes name_size comment_size = record {
  platform = read_u32be (take 4 bytes);
  type_sig = read_u32be (subspan 4 4 bytes);
  creator_sig = read_u32be (subspan 8 4 bytes);
  flags = read_u32be (subspan 12 4 bytes);
  platform_flags = read_u32be (subspan 16 4 bytes);
  reserved = subspan 20 32 bytes;
  create_date = decode_date_time_stamp (subspan 52 8 bytes);
  modify_date = decode_date_time_stamp (subspan 60 8 bytes);
  name_script = read_u16be (subspan 68 2 bytes);
  name = subspan 72 name_size bytes;
  comment = subspan (72 + name_size + 2) comment_size bytes;
}

commented : List ℕ → ℕ → ℕ → Expected DecodeError FlatFileInfo
unfolding read_info
commented bytes name_size comment_size =
    let total = 72 + name_size + 2 + comment_size in
    if ltb (length bytes) total
    then err DecodeError.truncated
    else if ltb total (length bytes)
    then err DecodeError.trailing_bytes
    else ok (read_info bytes name_size comment_size)

named : List ℕ → ℕ → Expected DecodeError FlatFileInfo
unfolding commented
named bytes name_size =
    if ltb (length bytes) (72 + name_size + 2)
    then err DecodeError.truncated
    else commented bytes name_size (read_u16be (subspan (72 + name_size) 2 bytes))

unfoldable pub try_decode_info_fork : List ℕ → Expected DecodeError FlatFileInfo
unfolding named
try_decode_info_fork bytes =
    if ltb (length bytes) 72
    then err DecodeError.truncated
    else named bytes (read_u16be (subspan 70 2 bytes))

-- The values that the members' types hold.
pub record IsInfo (info : FlatFileInfo) : Type 0 where
  pub platform_fits : info.platform < 2 ^ 32
  pub type_sig_fits : info.type_sig < 2 ^ 32
  pub creator_sig_fits : info.creator_sig < 2 ^ 32
  pub flags_fits : info.flags < 2 ^ 32
  pub platform_flags_fits : info.platform_flags < 2 ^ 32
  pub reserved_size : length info.reserved ≡ 32
  pub create_date_fits : IsStamp info.create_date
  pub modify_date_fits : IsStamp info.modify_date
  pub name_script_fits : info.name_script < 2 ^ 16
