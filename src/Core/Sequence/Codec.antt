-- ===== src/Core/Sequence/Codec.antt =====
-- What an element's encoder and decoder promise one another, and what follows for a sequence.
use slopline.Base.{
  ℕ, zero, suc, List, [], ◌∷◌, ◌++◌, Expected, ok, Expected-cases, ok-injective, inl, inr,
  All-right, ◌≡◌, refl, sym, ap, ◌∙◌, All, length, append_assoc,
}
use mathlib.Core.Path.{subst}
use slopline.Core.Errors.{DecodeError, EncodeError}
use slopline.Core.Endian.{IsByte}
use slopline.Core.Sequence.{decode_each, encode_each}

module _ {A : Type 0} (encode : A → Expected EncodeError (List ℕ))
    (decode : List ℕ → Expected DecodeError (A × List ℕ)) (Fits : A → Type 0)
    (written : A → List ℕ) where
  -- The elements that fit are written as `written` says, and read back before any other bytes.
  pub record IsCodec : Type 0 where
    pub writes : (a : A) → Fits a → encode a ≡ ok (written a)
    pub reads : (a : A) (rest : List ℕ) → Fits a → decode (written a ++ rest) ≡ ok (a, rest)

  -- Whatever the decoder accepts is the encoding of what it returns.
  pub record IsCanonical : Type 0 where
    pub determines :
        (bytes : List ℕ) (a : A) (rest : List ℕ)
        → All IsByte bytes
        → decode bytes ≡ ok (a, rest)
        → (bytes ≡ written a ++ rest) × Fits a

-- The bytes of a sequence.
abbrev pub written_each : {A : Type 0} → (A → List ℕ) → List A → List ℕ
written_each written [] = []
written_each written (a ∷ more) = written a ++ written_each written more

module _ {A : Type 0} {encode : A → Expected EncodeError (List ℕ)}
    {decode : List ℕ → Expected DecodeError (A × List ℕ)} {Fits : A → Type 0}
    {written : A → List ℕ} where
  pub encode_each_lem :
      IsCodec encode decode Fits written
      → (xs : List A) → All Fits xs
      → encode_each encode xs ≡ ok (written_each written xs)
  unfolding encode_each
  encode_each_lem c [] h = refl
  encode_each_lem c (a ∷ more) h = rw (c.writes a h.0, encode_each_lem c more h.1)

  pub decode_each_lem :
      IsCodec encode decode Fits written
      → (xs : List A) (rest : List ℕ) → All Fits xs
      → decode_each decode (length xs) (written_each written xs ++ rest) ≡ ok (xs, rest)
  unfolding decode_each
  decode_each_lem c [] rest h = refl
  decode_each_lem c (a ∷ more) rest h =
      rw
        (
          append_assoc (written a) (written_each written more) rest,
          c.reads a (written_each written more ++ rest) h.0,
          decode_each_lem c more rest h.1,
        )
        refl

  pub decode_each_determines :
      IsCanonical encode decode Fits written
      → (count : ℕ) (bytes : List ℕ) (xs : List A) (rest : List ℕ) → All IsByte bytes
      → decode_each decode count bytes ≡ ok (xs, rest)
      → (bytes ≡ written_each written xs ++ rest) × (length xs ≡ count) × All Fits xs
  unfolding decode_each
  decode_each_determines c zero bytes xs rest h e =
      subst (λ p. (bytes ≡ written_each written p.0 ++ p.1) × (length p.0 ≡ 0) × All Fits p.0)
        (ok-injective e) (refl, refl, tt)
  decode_each_determines c (suc count) bytes xs rest h e = elim (Expected-cases (decode bytes)) [
    | inr (x, d) ↦ absurd (cc (rw d at e))
    | inl ((a, behind), d) ↦ elim (Expected-cases (decode_each decode count behind)) [
      | inr (x, f) ↦ absurd (cc (rw (d, f) at e))
      | inl ((more, r), f) ↦
          let (front, fits) = c.determines bytes a behind h d in
          let (tail, size, all) =
            decode_each_determines c count behind more r
              (All-right IsByte (written a) behind (rw front at h)) f in
          subst
            (λ p.
              (bytes ≡ written_each written p.0 ++ p.1) × (length p.0 ≡ suc count) × All Fits p.0)
            (ok-injective (rw (d, f) at e))
            (
              front
                  ∙ ap (◌++◌ (written a)) tail
                  ∙ sym (append_assoc (written a) (written_each written more) r),
              ap suc size,
              (fits, all),
            )
    ]
  ]
