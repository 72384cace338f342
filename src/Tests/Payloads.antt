-- ===== src/Tests/Payloads.antt =====
-- Payloads and tracker messages on small values.
use slopline.Base.{ℕ, List, [], ◌∷◌, ok, negsuc, ◌≡◌, refl, arith}
use slopline.Protocol.Payload.{FileInfo, UserInfo, DateTimeStamp}
use slopline.Protocol.Tracker.{
  TrackerServerEntry, TrackerServerListMessage, encode_tracker_server_list,
  try_decode_tracker_server_list, append_server_entry, append_pstring,
}
use slopline.Protocol.Tracker.Entries.{IsEntry, decode-encode_tracker_server_list}
use slopline.Tests.Inputs.{hello}

abbrev test_file_info : FileInfo
test_file_info = record {
  type = 1413830740;
  creator = 7;
  file_size = 5;
  name_script = 0;
  name = hello;
}

abbrev test_user_info : UserInfo
test_user_info = record { id = 9; icon_id = negsuc 3; flags = 1; name = hello }

abbrev test_stamp : DateTimeStamp
test_stamp = record { year = 2001; msecs = 250; seconds = 86400 }

abbrev test_server_entry : TrackerServerEntry
test_server_entry = record {
  address = 10 ∷ 0 ∷ 0 ∷ 1 ∷ [];
  port = 5500;
  user_count = 3;
  flags = 0;
  name = hello;
  description = [];
}

test_server_entry-IsEntry : IsEntry test_server_entry
test_server_entry-IsEntry = record {
  address_size = refl;
  port_fits = omega arith;
  user_count_fits = omega arith;
  flags_fits = omega arith;
  name_fits = omega arith;
  description_fits = omega arith;
}

abbrev test_server_list : TrackerServerListMessage
test_server_list = record { total_count = 1; servers = test_server_entry ∷ [] }

decode-encode_tracker_server_list_example :
    (bytes : List ℕ) × (encode_tracker_server_list test_server_list ≡ ok bytes)
    × (try_decode_tracker_server_list bytes ≡ ok test_server_list)
decode-encode_tracker_server_list_example =
    decode-encode_tracker_server_list test_server_list (record {
      total_count_fits = omega arith;
      few = omega arith;
      entries = (test_server_entry-IsEntry, tt);
      small =
          unfold append_server_entry append_pstring slopline.Core.Endian.write_u16be in omega arith;
    })
