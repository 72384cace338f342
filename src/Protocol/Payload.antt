-- ===== src/Protocol/Payload.antt =====
-- src/hotline/protocol/include/hotline/protocol/payload.h and src/payload.cpp: what a field carries
-- about a file, a user or a date. The access mask has its own module.
pub mod RoundTrip
use slopline.Base.{
  ℕ, ◌%◌, ◌^◌, ◌<◌, ◌≤◌, Bool, List, [], ◌∷◌, ◌++◌, ltb, if◌then◌else◌, length, take, subspan,
  Expected, ok, err, ◌>>=◌, ℤ, IsInt, to_word, of_word,
}
use slopline.Core.Errors.{DecodeError, EncodeError, take_span, exact_size}
use slopline.Core.Endian.{read_u16be, read_u32be, read_u32le, write_u16be, write_u32be, write_u32le}
use slopline.Protocol.Constants.{max_field_data_size}

pub record FileInfo : Type 0 where
  pub type : ℕ
  pub creator : ℕ
  pub file_size : ℕ
  pub name_script : ℕ
  pub name : List ℕ

-- The type and the creator are little-endian, all else is big-endian.
pub encode_file_info : FileInfo → Expected EncodeError (List ℕ)
encode_file_info info =
    if ltb max_field_data_size (length info.name)
    then err EncodeError.string_too_long
    else ok (
        (write_u32le info.type
          ++ (write_u32le info.creator
              ++ (write_u32be info.file_size
                  ++ (write_u32be 0
                      ++ (write_u16be info.name_script
                          ++ write_u16be (length info.name % 2 ^ 16))))))
        ++ info.name)

pub try_decode_file_info : List ℕ → Expected DecodeError FileInfo
try_decode_file_info bytes = do
  (head, body) ← take_span 20 bytes
  name ← exact_size (read_u16be (subspan 18 2 head)) body
  ok (record {
    type = read_u32le (take 4 head);
    creator = read_u32le (subspan 4 4 head);
    file_size = read_u32be (subspan 8 4 head);
    name_script = read_u16be (subspan 16 2 head);
    name = name;
  })

-- `icon_id` is a signed word.
pub record UserInfo : Type 0 where
  pub id : ℕ
  pub icon_id : ℤ
  pub flags : ℕ
  pub name : List ℕ

pub encode_user_info : UserInfo → Expected EncodeError (List ℕ)
encode_user_info info =
    if ltb max_field_data_size (length info.name)
    then err EncodeError.string_too_long
    else ok (
        (write_u16be info.id
          ++ (write_u16be (to_word (2 ^ 16) info.icon_id)
              ++ (write_u16be info.flags ++ write_u16be (length info.name % 2 ^ 16))))
        ++ info.name)

pub try_decode_user_info : List ℕ → Expected DecodeError UserInfo
try_decode_user_info bytes = do
  (head, body) ← take_span 8 bytes
  name ← exact_size (read_u16be (subspan 6 2 head)) body
  ok (record {
    id = read_u16be (take 2 head);
    icon_id = of_word (2 ^ 15) (read_u16be (subspan 2 2 head));
    flags = read_u16be (subspan 4 2 head);
    name = name;
  })

pub record DateTimeStamp : Type 0 where
  pub year : ℕ
  pub msecs : ℕ
  pub seconds : ℕ

unfoldable pub encode_date_time_stamp : DateTimeStamp → List ℕ
encode_date_time_stamp stamp =
    write_u16be stamp.year ++ (write_u16be stamp.msecs ++ write_u32be stamp.seconds)

unfoldable pub decode_date_time_stamp : List ℕ → DateTimeStamp
decode_date_time_stamp bytes = record {
  year = read_u16be (take 2 bytes);
  msecs = read_u16be (subspan 2 2 bytes);
  seconds = read_u32be (subspan 4 4 bytes);
}

pub try_decode_date_time_stamp : List ℕ → Expected DecodeError DateTimeStamp
try_decode_date_time_stamp bytes = do bytes ← exact_size 8 bytes; ok (decode_date_time_stamp bytes)

-- The values that the members' types hold.
pub record IsFileInfo (info : FileInfo) : Type 0 where
  pub type_fits : info.type < 2 ^ 32
  pub creator_fits : info.creator < 2 ^ 32
  pub file_size_fits : info.file_size < 2 ^ 32
  pub name_script_fits : info.name_script < 2 ^ 16

pub record IsUserInfo (info : UserInfo) : Type 0 where
  pub id_fits : info.id < 2 ^ 16
  pub icon_id_fits : IsInt (2 ^ 15) info.icon_id
  pub flags_fits : info.flags < 2 ^ 16

pub record IsStamp (stamp : DateTimeStamp) : Type 0 where
  pub year_fits : stamp.year < 2 ^ 16
  pub msecs_fits : stamp.msecs < 2 ^ 16
  pub seconds_fits : stamp.seconds < 2 ^ 32
