-- ===== src/Core/Sequence.antt =====
-- The loops that every counted format repeats: `for (i = 0; i < count; ++i)` over the elements of
-- a span, and the loop over the elements of a vector that appends their bytes.
pub mod Codec
use slopline.Base.{ℕ, zero, suc, List, [], ◌∷◌, ◌++◌, Expected, ok, err, ◌>>=◌}
use slopline.Core.Errors.{DecodeError, EncodeError}

module _ {A : Type 0} (decode : List ℕ → Expected DecodeError (A × List ℕ)) where
  -- `count` rounds: the elements, and the bytes behind them. An error ends the loop.
  unfoldable pub decode_each : ℕ → List ℕ → Expected DecodeError (List A × List ℕ)
  decode_each zero bytes = ok ([], bytes)
  decode_each (suc count) bytes = do
    (a, bytes) ← decode bytes
    (more, rest) ← decode_each count bytes
    ok (a ∷ more, rest)

module _ {A : Type 0} (encode : A → Expected EncodeError (List ℕ)) where
  unfoldable pub encode_each : List A → Expected EncodeError (List ℕ)
  encode_each [] = ok []
  encode_each (a ∷ more) = do front ← encode a; rest ← encode_each more; ok (front ++ rest)
