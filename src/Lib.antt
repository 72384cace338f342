-- ===== src/Lib.antt =====
-- A verification of Slopline, a C++ implementation of the Hotline protocol (src/hotline) on a small
-- framework (src/appwarrior).
--
-- The program. A connection (src/hotline/net/src/connection.cpp) owns a socket. A role, the client
-- (src/hotline/client) or the server (src/hotline/server), does the handshake, and then the shared
-- base class frames the stream into transactions, enforces the receive policy, joins parts, and
-- hands each transaction to a callback; a session (src/hotline/net/src/session.cpp) judges the login
-- transactions. Bodies are field lists, and fields carry the payloads, by the codecs of
-- src/hotline/protocol.
--
-- The files.
--   Base, Bits       shared names, lists and loops on the native numbers; binary digits
--   Core.Endian      src/appwarrior/core/include/appwarrior/core/endian.h
--   Core.Errors      decode_error.h and encode_error.h beside it, and the guarded read
--   Core.Sequence    the loop of every counted format; Codec has its round trip for any element
--   Core.Bits, Guid, Align, Ivar
--                    bits.h, guid.h, align.h and ivar_array.h beside it
--   Crypto           src/appwarrior/crypto: Blowfish with its tables, Sha1 and Md5, and in Digest
--                    the loop over blocks and the tail buffer that both digests repeat
--   Protocol         constants, field_list, transaction, handshake, payload (with AccessMask),
--                    transfer (with Info and Folder), archive, hope and tracker, each file under
--                    the name of its header
--   Protocol.Cipher  transaction_cipher, key_schedule, hmac and the stream of blowfish.h over any
--                    digest and block cipher; Steps is on the two sides in step, Keys on the keys,
--                    and Suites puts the digests and Blowfish in the place of the parameters
--   Net.Connection   ConnectionBase: the record with Send (queue_transaction, flush_sends) and
--                    Receive (service_readable, parse_inbound, complete_transaction); the other
--                    children prove. Sealed states in IsTunnel what a connection relies on in its
--                    crypto hooks; Sealed.Tunnel fills this with the transaction cipher
--   Net.Session      Session::process with the login and the agreement
--   Net.Address      IpAddress: from_text, and to_text in Print
--   Roles            ClientConnection and ServerConnection, and both together in Establish
--   Tests            the inputs at which the results are applied
--
-- How the model stands to the code. A function that changes an object takes the record and returns
-- it changed. Bytes and words are natural numbers with the conversions of the source written out as
-- remainders; a span or a vector is a list. std::expected is Expected and std::optional is Option.
-- Callbacks are events on a list, the latest first. A socket is what the system will answer to the
-- calls of send that are still to come, and what it has taken; what receive returns is an argument
-- of service_readable. The virtual handle_handshake is a parameter of parse_inbound, under the
-- contract IsHandler that both roles are shown to keep. The crypto hooks of a connection and the user
-- lookup are parameters; the transaction cipher is stated over any MAC and block cipher.
--
-- Loops. The loops over vectors recur on lists. The loop of parse_inbound runs on fuel, two rounds
-- for a byte of input and two more; this is shown to be enough for every state. flush_sends recurs
-- on the answers that the socket has left. The digests run on the length of the message as fuel,
-- where a round takes 64 bytes; the equation with the fold over the blocks shows that it is enough.
--
-- The reading of an IPv6 address has nine rounds for the groups, of which the ninth is refused by the
-- test of the source, and its printing eight rounds for the eight groups.
--
-- Not modelled: sockets and the poller (system calls), and the enumerators of constants.h that no
-- modelled code reads. zlib's uncompress is a parameter. Allocation failures are not modelled either.
pub mod Base
pub mod Bits
pub mod Core
pub mod Protocol
pub mod Crypto
pub mod Net
pub mod Roles
pub mod Tests
