-- ===== src/Net/Connection/Reading.antt =====
-- src/hotline/net/src/connection.cpp, `service_readable`: the bytes of one pass over the socket.
use slopline.Base.{
  ℕ, true, false, List, [], ◌∷◌, ◌++◌, some, All, Expected, ok, err, append-nil, append_assoc, ◌≡◌,
  ◌≢◌, refl, sym, ap, ◌∙◌,
}
use slopline.Net.Connection.{Connection, ConnectionState, NetError, on_closed}
use slopline.Net.Connection.Send.{is_dead, mark_dead}
use slopline.Net.Connection.Receive.{parse_inbound, receive_all, service_readable}
use slopline.Net.Connection.Parsing.{feed}

-- What a call of `receive` returns while the loop goes on: bytes, or an interruption.
abbrev pub IsRead : Expected NetError (List ℕ) → Type 0
IsRead (ok bytes) = Unit {0}
IsRead (err NetError.interrupted) = Unit {0}
IsRead (err _) = ⊥

-- The bytes of such calls, in order.
abbrev pub collected : List (Expected NetError (List ℕ)) → List ℕ
collected [] = []
collected (ok bytes ∷ reads) = bytes ++ collected reads
collected (err _ ∷ reads) = collected reads

module _ {C : Type 0} (handle : Connection C → Connection C) where
  receive_all-append :
      (reads tail : List (Expected NetError (List ℕ))) (c : Connection C)
      → All IsRead reads
      → receive_all handle (reads ++ tail) c ≡ receive_all handle tail (feed (collected reads) c)
  unfolding receive_all
  receive_all-append [] tail c h =
      ap (λ bytes. receive_all handle tail (record c { inbound = bytes }))
        (sym (append-nil c.inbound))
  receive_all-append (ok bytes ∷ reads) tail c h =
      receive_all-append reads tail (record c { inbound = c.inbound ++ bytes }) h.1
      ∙ ap (λ inbound. receive_all handle tail (record c { inbound = inbound }))
          (append_assoc c.inbound bytes (collected reads))
  receive_all-append (err NetError.interrupted ∷ reads) tail c h =
      receive_all-append reads tail c h.1
  receive_all-append (err NetError.would_block ∷ reads) tail c h = absurd h.0
  receive_all-append (err NetError.connection_closed ∷ reads) tail c h = absurd h.0
  receive_all-append (err NetError.connection_refused ∷ reads) tail c h = absurd h.0
  receive_all-append (err NetError.address_in_use ∷ reads) tail c h = absurd h.0
  receive_all-append (err NetError.invalid_argument ∷ reads) tail c h = absurd h.0
  receive_all-append (err NetError.system ∷ reads) tail c h = absurd h.0

  -- An error that ends the loop for good.
  receive_all-fatal :
      (error : NetError) (more : List (Expected NetError (List ℕ))) (c : Connection C)
      → error ≢ NetError.would_block
      → error ≢ NetError.interrupted
      → receive_all handle (err error ∷ more) c ≡ (mark_dead c, false)
  unfolding receive_all
  receive_all-fatal NetError.would_block more c h k = absurd (h refl)
  receive_all-fatal NetError.interrupted more c h k = absurd (k refl)
  receive_all-fatal NetError.connection_closed more c h k = refl
  receive_all-fatal NetError.connection_refused more c h k = refl
  receive_all-fatal NetError.address_in_use more c h k = refl
  receive_all-fatal NetError.invalid_argument more c h k = refl
  receive_all-fatal NetError.system more c h k = refl

  -- However many chunks and interruptions a pass over the socket of a live connection sees: if it ends
  -- because the socket would block, all their bytes are parsed behind the earlier input in one run of
  -- `parse_inbound`; if it ends with another error, such as the peer's close, nothing is parsed and no
  -- transaction is dispatched, the bytes stay in the input, and the connection is dead, its socket
  -- closed, with one call of `on_closed`.
  pub service_readable-collected :
      (c : Connection C) (reads more : List (Expected NetError (List ℕ))) (error : NetError)
      → is_dead c.state ≡ false
      → All IsRead reads
      → error ≢ NetError.would_block
      → error ≢ NetError.interrupted
      → (service_readable handle reads c ≡ parse_inbound handle (feed (collected reads) c))
        × (service_readable handle (reads ++ (err NetError.would_block ∷ more)) c
            ≡ parse_inbound handle (feed (collected reads) c))
        × (service_readable handle (reads ++ (err error ∷ more)) c
            ≡ some (record c {
              state = ConnectionState.dead;
              socket = record c.socket { is_open = false };
              inbound = c.inbound ++ collected reads;
              events = on_closed ∷ c.events;
            }))
  unfolding service_readable receive_all mark_dead
  service_readable-collected c reads more error live all goes stays =
      let blocked = err NetError.would_block ∷ more in
      let fed = feed (collected reads) c in
      let end : receive_all handle (reads ++ (err error ∷ more)) c ≡ (mark_dead fed, false) =
        receive_all-append reads (err error ∷ more) c all
        ∙ receive_all-fatal error more fed goes stays in
      let whole : receive_all handle reads c ≡ (fed, true) =
        ap (λ r. receive_all handle r c) (sym (append-nil reads))
        ∙ receive_all-append reads [] c all in
      (
        rw (live, whole) refl,
        rw (live, receive_all-append reads blocked c all) refl,
        rw (live, end, live) refl,
      )
