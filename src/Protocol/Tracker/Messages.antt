-- ===== src/Protocol/Tracker/Messages.antt =====
-- The tracker's registration is read back from its bytes.
use slopline.Base.{
  ℕ, ◌^◌, ◌<◌, ◌≤◌, true, ◌||◌, List, [], ◌++◌, lt→ltb, le→ltb, ◌==◌, length, length-append, ok,
  ◌≡◌, ◌⊎◌, refl, sym, append-nil, arith,
}
use slopline.Core.Errors.{guard, take_span-append, expect_end}
use slopline.Core.Endian.{write_u16be, write_u32be}
use slopline.Core.Endian.Laws.{read-write_u16be, read-write_u32be}
use slopline.Protocol.Tracker.{
  TrackerRegistration, append_pstring, encode_tracker_registration, try_decode_tracker_registration,
}
use slopline.Protocol.Tracker.Entries.{read-append_pstring}

pub record IsRegistration (registration : TrackerRegistration) : Type 0 where
  pub port_fits : registration.port < 2 ^ 16
  pub user_count_fits : registration.user_count < 2 ^ 16
  pub flags_fits : registration.flags < 2 ^ 16
  pub pass_id_fits : registration.pass_id < 2 ^ 32
  pub name_fits : length registration.name ≤ 255
  pub description_fits : length registration.description ≤ 255
  pub password_fits : length registration.password ≤ 255

-- A registration of type 1 or 2, whose texts have at most 255 bytes and whose numbers fit, is
-- encoded, and read back from its bytes.
pub decode-encode_tracker_registration :
    (type : ℕ) (registration : TrackerRegistration)
    → (type ≡ 1) ⊎ (type ≡ 2)
    → IsRegistration registration
    → (bytes : List ℕ) × (encode_tracker_registration type registration ≡ ok bytes)
      × (try_decode_tracker_registration bytes
          ≡ ok (record { type = type; registration = registration }))
unfolding encode_tracker_registration try_decode_tracker_registration guard expect_end write_u16be
    write_u32be
decode-encode_tracker_registration type r known h =
    let head : List ℕ =
      write_u16be type
      ++ (write_u16be r.port
          ++ (write_u16be r.user_count ++ (write_u16be r.flags ++ write_u32be r.pass_id))) in
    let name = append_pstring r.name in
    let description = append_pstring r.description in
    let password = append_pstring r.password in
    let is_type : (type == 1 || type == 2) ≡ true = ground (arith, known) in
    let long : 14 < length (head ++ (name ++ (description ++ password))) =
      unfold append_pstring in
      omega (
        arith,
        length-append r.name (description ++ password),
        length-append r.description password,
      ) in
    (
      head ++ (name ++ (description ++ password)),
      rw
          (
            le→ltb 255 (length r.name) h.name_fits,
            le→ltb 255 (length r.description) h.description_fits,
            le→ltb 255 (length r.password) h.password_fits,
          )
          refl,
      rw
          (
            lt→ltb 14 (length (head ++ (name ++ (description ++ password)))) long,
            take_span-append 12 head (name ++ (description ++ password)) refl,
            read-write_u16be type (ground (arith, known)),
            is_type,
            read-append_pstring r.name (description ++ password) h.name_fits,
            read-append_pstring r.description password h.description_fits,
            sym (append-nil password),
            read-append_pstring r.password [] h.password_fits,
            read-write_u16be r.port h.port_fits,
            read-write_u16be r.user_count h.user_count_fits,
            read-write_u16be r.flags h.flags_fits,
            read-write_u32be r.pass_id h.pass_id_fits,
          )
          refl,
    )
