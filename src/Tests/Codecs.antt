-- ===== src/Tests/Codecs.antt =====
-- The handshake of two connections, and the codecs on small values.
use slopline.Protocol.AccessMask.Wire.{has-get_bit}
use slopline.Core.Bits.{get_bit}
use slopline.Base.{
  ◌≤◌, replicate, All-replicate, ℕ, true, List, [], ◌∷◌, ok, length, negsuc, All, ◌≡◌, inl, refl,
  arith,
}
use slopline.Core.Errors.{DecodeError, EncodeError}
use slopline.Core.Endian.{IsByte}
use slopline.Protocol.Constants.{protocol_tr_tp, sub_protocol_hotl, client_sub_version}
use slopline.Protocol.Constants.AccessPrivilege.{AccessPrivilege, index}
use slopline.Protocol.FieldList.{
  IsField, Field, FieldList, encode_field_list, decode_field_list, find_field, make_integer_field,
  decode_integer_field,
}
use slopline.Protocol.FieldList.RoundTrip.{decode-encode_field_list, encode-decode_field_list}
use slopline.Protocol.FieldList.Values.{decode-make_integer_field}
use slopline.Protocol.Handshake.{
  ClientHandshake, IsClientHandshake, encode_server_handshake_reply, encode_client_handshake,
}
use slopline.Protocol.AccessMask.{encode_access_mask, has, set}
use slopline.Protocol.AccessMask.Laws.{has-set}
use slopline.Protocol.Transfer.{
  encode_flat_file, try_decode_flat_file, encode_resume_data, try_decode_resume_data, FlatFile,
  ResumeData, ResumeEntry, fork_type_data,
}
use slopline.Protocol.Transfer.Forks.{decode-encode_flat_file}
use slopline.Protocol.Transfer.Resumption.{decode-encode_resume_data}
use slopline.Net.Connection.{Connection, ConnectionState}
use slopline.Roles.Client.{new_client, start_client, client_handshake}
use slopline.Roles.Server.{new_server, start_server, reply_with, server_handshake}
use slopline.Roles.Establish.{establish, establish_refused}
use slopline.Net.Connection.Outcome.{IsTaking}
use slopline.Net.Connection.Drain.{Takes}
use slopline.Net.Connection.{Socket, on_established, on_closed, new_connection}
use slopline.Tests.Inputs.{hello, guest_access}

-- An open socket that takes four bytes at each of twelve calls.
abbrev test_socket : Socket
test_socket = record { is_open = true; answers = replicate 12 (ok 4); sent = [] }

socket-IsTaking : (size : ℕ) → size ≤ 12 → IsTaking size test_socket
socket-IsTaking size h = record {
  is_open = refl;
  takes = All-replicate Takes 12 (ok 4) (omega arith);
  enough = h;
}

abbrev test_client : Connection ℕ
test_client = new_client 1000 0

abbrev test_started : Connection ℕ
test_started = start_client test_client test_socket sub_protocol_hotl client_sub_version

abbrev test_server : Connection ℕ
test_server = start_server (new_server 1000 0) test_socket

abbrev test_greeted : Connection ℕ
test_greeted = record test_server { inbound = test_started.socket.sent }

abbrev test_answered : Connection ℕ
test_answered = record test_started { inbound = (server_handshake test_greeted).socket.sent }

establish_example :
    (test_started.state ≡ ConnectionState.awaiting_handshake_reply)
    × (test_started.send_queue ≡ [])
    × ((server_handshake test_greeted).state ≡ ConnectionState.established)
    × ((server_handshake test_greeted).events ≡ on_established ∷ [])
    × ((server_handshake test_greeted).send_queue ≡ [])
    × ((server_handshake test_greeted).inbound ≡ [])
    × ((server_handshake test_greeted).remote_sub_protocol ≡ sub_protocol_hotl)
    × ((server_handshake test_greeted).remote_version ≡ client_sub_version)
    × (client_handshake test_answered ≡ record test_answered {
      state = ConnectionState.established;
      inbound = [];
      events = on_established ∷ test_answered.events;
    })
unfolding new_client new_server start_server new_connection
establish_example =
    establish test_client test_greeted test_answered test_socket sub_protocol_hotl
      client_sub_version (omega arith) (omega arith) refl refl (socket-IsTaking 12 (omega arith))
      refl refl (socket-IsTaking 8 (omega arith)) refl refl

abbrev old_handshake : ClientHandshake
old_handshake = record {
  protocol = protocol_tr_tp;
  sub_protocol = sub_protocol_hotl;
  version = 2;
  sub_version = 0;
}

old_handshake-IsClientHandshake : IsClientHandshake old_handshake
old_handshake-IsClientHandshake = record {
  protocol_fits = omega arith;
  sub_protocol_fits = omega arith;
  version_fits = omega arith;
  sub_version_fits = omega arith;
}

abbrev old_greeted : Connection ℕ
old_greeted = record test_server { inbound = encode_client_handshake old_handshake }

abbrev old_answered : Connection ℕ
old_answered = record test_started { inbound = (server_handshake old_greeted).socket.sent }

establish_refused_example :
    ((server_handshake old_greeted).socket.sent ≡ encode_server_handshake_reply (reply_with 1))
    × ((server_handshake old_greeted).send_queue ≡ [])
    × ((server_handshake old_greeted).state ≡ ConnectionState.dead)
    × ((server_handshake old_greeted).events ≡ on_closed ∷ [])
    × ((client_handshake old_answered).state ≡ ConnectionState.dead)
unfolding new_server start_server new_connection
establish_refused_example =
    establish_refused old_greeted old_answered old_handshake old_handshake-IsClientHandshake
      (inl refl) (λ e. absurd (omega arith)) refl refl (socket-IsTaking 8 (omega arith)) refl refl

abbrev two_fields : FieldList
two_fields = record { id = 105; content = hello } ∷ record { id = 102; content = [] } ∷ []

decode-encode_field_list_example :
    (bytes : List ℕ) × (encode_field_list two_fields ≡ ok bytes)
    × (decode_field_list bytes ≡ ok two_fields)
decode-encode_field_list_example =
    decode-encode_field_list two_fields
      ((omega arith, omega arith), ((omega arith, omega arith), tt)) (omega arith)

-- An empty list as it stands on the wire.
no_fields : decode_field_list (0 ∷ 0 ∷ []) ≡ ok []
unfolding decode_field_list slopline.Core.Errors.take_span slopline.Core.Errors.expect_end
    slopline.Core.Sequence.decode_each slopline.Core.Endian.read_u16be
no_fields = refl

encode-decode_field_list_example : (encode_field_list [] ≡ ok (0 ∷ 0 ∷ [])) × All IsField []
encode-decode_field_list_example =
    encode-decode_field_list (0 ∷ 0 ∷ []) [] (omega arith, (omega arith, tt)) no_fields

has-set_example :
    has (set guest_access AccessPrivilege.read_chat true) AccessPrivilege.send_chat
    ≡ has guest_access AccessPrivilege.send_chat
unfolding index
has-set_example = has-set guest_access AccessPrivilege.read_chat AccessPrivilege.send_chat true

has-get_bit_example :
    has guest_access AccessPrivilege.send_chat
    ≡ get_bit (encode_access_mask guest_access) (index AccessPrivilege.send_chat)
has-get_bit_example = has-get_bit guest_access AccessPrivilege.send_chat

decode-make_integer_field_example :
    (decode_integer_field (make_integer_field 160 (negsuc 4)) ≡ ok (negsuc 4))
    × ((make_integer_field 160 (negsuc 4)).id ≡ 160)
    × (length (make_integer_field 160 (negsuc 4)).content ≡ 4)
unfolding slopline.Protocol.FieldList.fits_u16
decode-make_integer_field_example = decode-make_integer_field 160 (negsuc 4) (omega arith)

abbrev test_file : FlatFile
test_file = record {
  version = 1;
  forks = record { type = fork_type_data; compression_type = 0; content = hello } ∷ [];
}

decode-encode_flat_file_example :
    (bytes : List ℕ) × (encode_flat_file test_file ≡ ok bytes)
    × (try_decode_flat_file bytes ≡ ok test_file)
decode-encode_flat_file_example =
    decode-encode_flat_file test_file
      (omega arith, omega arith, ((omega arith, omega arith, omega arith), tt))

abbrev test_entry : ResumeEntry
test_entry = record { fork = fork_type_data; data_size = 4096 }

abbrev test_resume : ResumeData
test_resume = record { version = 1; entries = test_entry ∷ [] }

decode-encode_resume_data_example :
    (bytes : List ℕ) × (encode_resume_data test_resume ≡ ok bytes)
    × (try_decode_resume_data bytes ≡ ok test_resume)
decode-encode_resume_data_example =
    decode-encode_resume_data test_resume (refl, omega arith, ((omega arith, omega arith), tt))
