-- ===== src/Protocol/Tracker/Handshake.antt =====
-- The handshake of src/hotline/protocol/src/tracker.cpp: what a client sends to the tracker, and the
-- tracker's reply.
use slopline.Base.{
  ℕ, ◌-◌, ◌^◌, ◌<◌, ◌≤◌, List, [], ◌∷◌, ◌++◌, replicate, ltb, ◌==◌, if◌then◌else◌, length, take,
  drop, subspan, get_or, min, Expected, ok, err, ◌>>=◌, lt→ltb, le→ltb, ne→==, ◌≢◌, take-min,
  length-append, length-take, length-replicate, take-append, drop-append, ◌≡◌, refl, ap, arith,
}
use slopline.Core.Errors.{
  DecodeError, guard, take_span, expect_end, exact_size, take_span-append, exact_size-eq-ok,
}
use slopline.Core.Endian.{read_u16be, read_u32be, write_u16be, write_u32be}
use slopline.Core.Endian.Laws.{read-write_u16be, read-write_u32be}
use slopline.Protocol.Tracker.{tracker_protocol_tag}

pub record TrackerHandshake : Type 0 where
  pub version : ℕ
  pub login : List ℕ
  pub password : List ℕ

-- A padded string of 32 bytes, of which at most 31 are text.
unfoldable pub padded_pstring : List ℕ → List ℕ
padded_pstring text =
    let size = min (length text) 31 in size ∷ (take size text ++ replicate (31 - size) 0)

unfoldable pub encode_tracker_handshake : ℕ → List ℕ → List ℕ → List ℕ
encode_tracker_handshake version login password =
    (write_u32be tracker_protocol_tag ++ write_u16be version)
    ++ (if version == 2 then padded_pstring login ++ padded_pstring password else [])

-- The lambda `parse_field`, on a field of 32 bytes.
unfoldable pub parse_padded : List ℕ → Expected DecodeError (List ℕ)
parse_padded field =
    let size = get_or field 0 0 in
    if ltb 31 size then err DecodeError.truncated else ok (subspan 1 size field)

-- Behind version 2: the two padded strings.
unfoldable pub read_credentials : List ℕ → Expected DecodeError TrackerHandshake
read_credentials body = do
  body ← exact_size 64 body
  login ← parse_padded (take 32 body)
  password ← parse_padded (drop 32 body)
  ok (record { version = 2; login = login; password = password })

-- Behind version 1: nothing.
unfoldable pub read_no_credentials : List ℕ → Expected DecodeError TrackerHandshake
read_no_credentials body = do
  _ ← expect_end body
  ok (record { version = 1; login = []; password = [] })

unfoldable pub try_decode_tracker_handshake : List ℕ → Expected DecodeError TrackerHandshake
try_decode_tracker_handshake bytes = do
  (head, body) ← take_span 6 bytes
  _ ← guard (read_u32be (take 4 head) == tracker_protocol_tag) DecodeError.wrong_format_tag
  let version = read_u16be (subspan 4 2 head)
  if version == 1
      then read_no_credentials body
      else if version == 2
      then read_credentials body
      else err DecodeError.unsupported_version

unfoldable pub encode_tracker_handshake_reply : ℕ → List ℕ
encode_tracker_handshake_reply version = write_u32be tracker_protocol_tag ++ write_u16be version

unfoldable pub try_decode_tracker_handshake_reply : List ℕ → Expected DecodeError ℕ
try_decode_tracker_handshake_reply bytes = do
  bytes ← exact_size 6 bytes
  _ ← guard (read_u32be (take 4 bytes) == tracker_protocol_tag) DecodeError.wrong_format_tag
  ok (read_u16be (subspan 4 2 bytes))

length-padded_pstring : (text : List ℕ) → length (padded_pstring text) ≡ 32
unfolding padded_pstring
length-padded_pstring text =
    let size : ℕ = min (length text) 31 in
    omega (
      arith,
      length-append (take size text) (replicate (31 - size) 0),
      length-take size text,
      length-replicate {A = ℕ} (31 - size) 0,
    )

parse-padded_pstring : (text : List ℕ) → parse_padded (padded_pstring text) ≡ ok (take 31 text)
unfolding parse_padded padded_pstring
parse-padded_pstring text =
    let size : ℕ = min (length text) 31 in
    let cut : take size text ≡ take 31 text = take-min text 31 in
    rw
      (
        le→ltb 31 size (omega arith),
        take-append size (take size text) (replicate (31 - size) 0)
            (omega (arith, length-take size text)),
      )
      (ap ok cut)

-- The tracker reads back a handshake of version 2 with the first 31 bytes of the login and of the
-- password, and one of version 1 with neither; any other version is refused.
pub decode-encode_tracker_handshake :
    (login password : List ℕ)
    → (try_decode_tracker_handshake (encode_tracker_handshake 2 login password)
        ≡ ok (record { version = 2; login = take 31 login; password = take 31 password }))
      × (try_decode_tracker_handshake (encode_tracker_handshake 1 login password)
          ≡ ok (record { version = 1; login = []; password = [] }))
      × ((version : ℕ)
          → version < 2 ^ 16
          → version ≢ 1
          → version ≢ 2
          → try_decode_tracker_handshake (encode_tracker_handshake version login password)
            ≡ err DecodeError.unsupported_version)
unfolding encode_tracker_handshake try_decode_tracker_handshake read_credentials read_no_credentials
    expect_end guard write_u16be write_u32be
decode-encode_tracker_handshake login password =
    let head : ℕ → List ℕ = λ version. write_u32be tracker_protocol_tag ++ write_u16be version in
    let first = padded_pstring login in
    let second = padded_pstring password in
    (
      rw
          (
            take_span-append 6 (head 2) (first ++ second) refl,
            read-write_u32be tracker_protocol_tag (omega arith),
            read-write_u16be 2 (omega arith),
            exact_size-eq-ok 64 (first ++ second) (
                omega (
                  arith,
                  length-append first second,
                  length-padded_pstring login,
                  length-padded_pstring password,
                )),
            take-append 32 first second (length-padded_pstring login),
            drop-append 32 first second (length-padded_pstring login),
            parse-padded_pstring login,
            parse-padded_pstring password,
          )
          refl,
      rw
          (
            take_span-append 6 (head 1) [] refl,
            read-write_u32be tracker_protocol_tag (omega arith),
            read-write_u16be 1 (omega arith),
          )
          refl,
      λ version fits other another.
          rw
            (
              ne→== version 2 another,
              take_span-append 6 (head version) [] refl,
              read-write_u32be tracker_protocol_tag (omega arith),
              read-write_u16be version fits,
              ne→== version 1 other,
              ne→== version 2 another,
            )
            refl,
    )

-- The client reads back the version of a tracker's reply; a shorter text is truncated, and a longer one
-- has bytes too many.
pub decode-encode_tracker_handshake_reply :
    (version : ℕ) (more : List ℕ)
    → version < 2 ^ 16
    → (try_decode_tracker_handshake_reply (encode_tracker_handshake_reply version) ≡ ok version)
      × (1 ≤ length more
          → try_decode_tracker_handshake_reply (encode_tracker_handshake_reply version ++ more)
            ≡ err DecodeError.trailing_bytes)
      × ((n : ℕ)
          → n < 6
          → try_decode_tracker_handshake_reply (take n (encode_tracker_handshake_reply version))
            ≡ err DecodeError.truncated)
unfolding try_decode_tracker_handshake_reply encode_tracker_handshake_reply guard exact_size
    write_u16be write_u32be
decode-encode_tracker_handshake_reply version more h =
    let reply : List ℕ = write_u32be tracker_protocol_tag ++ write_u16be version in
    (
      rw (read-write_u32be tracker_protocol_tag (omega arith), read-write_u16be version h) refl,
      λ some_more.
          rw
            (
              le→ltb (length (reply ++ more)) 6 (omega (arith, length-append reply more)),
              lt→ltb 6 (length (reply ++ more)) (omega (arith, length-append reply more)),
            )
            refl,
      λ n short. rw (lt→ltb (length (take n reply)) 6 (omega (arith, length-take n reply))) refl,
    )
