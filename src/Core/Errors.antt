-- ===== src/Core/Errors.antt =====
-- src/appwarrior/core/include/appwarrior/core/decode_error.h and encode_error.h, with the guarded
-- read that every decoder repeats.
use slopline.Base.{
  Bool, true, false, ℕ, ◌<◌, ◌≡◌, refl, ap₂, List, [], ◌∷◌, ◌++◌, arith, ltb, le→ltb, lt→ltb,
  if◌then◌else◌, length, take, drop, take-append, drop-append, length-append, Expected, ok, err,
  take-append-drop, length-take,
}

pub data DecodeError : Type 0 where
  truncated trailing_bytes invalid_integer_field_size wrong_format_tag unsupported_version :
      DecodeError

pub data EncodeError : Type 0 where
  element_too_large count_too_large string_too_long : EncodeError

-- `if (bytes.size() < n) return truncated;` with `bytes.first(n)` and `bytes.subspan(n)`.
unfoldable pub take_span : ℕ → List ℕ → Expected DecodeError (List ℕ × List ℕ)
take_span n bytes =
    if ltb (length bytes) n then err DecodeError.truncated else ok (take n bytes, drop n bytes)

-- `if (!test) return error;`.
unfoldable pub guard : Bool → DecodeError → Expected DecodeError (Unit {0})
guard true e = ok tt
guard false e = err e

-- The final `if (!bytes.empty()) return trailing_bytes;`.
unfoldable pub expect_end : List ℕ → Expected DecodeError (Unit {0})
expect_end [] = ok tt
expect_end (b ∷ bytes) = err DecodeError.trailing_bytes

-- The size test of a fixed-extent decoder: exactly `n` bytes, neither fewer nor more.
unfoldable pub exact_size : ℕ → List ℕ → Expected DecodeError (List ℕ)
exact_size n bytes =
    if ltb (length bytes) n
    then err DecodeError.truncated
    else if ltb n (length bytes)
    then err DecodeError.trailing_bytes
    else ok bytes

pub take_span-append :
    (n : ℕ) (xs ys : List ℕ) → length xs ≡ n → take_span n (xs ++ ys) ≡ ok (xs, ys)
unfolding take_span
take_span-append n xs ys h =
    rw (le→ltb (length (xs ++ ys)) n (omega (arith, length-append xs ys)))
      (ap₂ (λ a b. ok (a, b)) (take-append n xs ys h) (drop-append n xs ys h))

pub take_span_short :
    (n : ℕ) (xs : List ℕ) → length xs < n → take_span n xs ≡ err DecodeError.truncated
unfolding take_span
take_span_short n xs h = rw (lt→ltb _ _ h)

-- What a successful read returns: the front, of the size asked for, and the rest.
pub take_span-eq-ok :
    (n : ℕ) (bytes front rest : List ℕ)
    → take_span n bytes ≡ ok (front, rest)
    → (bytes ≡ front ++ rest) × (length front ≡ n)
unfolding take_span
take_span-eq-ok n bytes front rest h = ground (arith, take-append-drop n bytes, length-take n bytes)

pub exact_size-eq-ok : (n : ℕ) (bytes : List ℕ) → length bytes ≡ n → exact_size n bytes ≡ ok bytes
unfolding exact_size
exact_size-eq-ok n bytes h = ground arith

pub expect_end-eq-ok : (bytes : List ℕ) → expect_end bytes ≡ ok tt → bytes ≡ []
unfolding expect_end
expect_end-eq-ok [] h = refl
expect_end-eq-ok (b ∷ bytes) h = cc
