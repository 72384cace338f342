-- ===== src/Base/Results.antt =====
-- `std::expected<T, E>`, and the idiom by which every decoder takes bytes off the front of a span.
use mathlib.Core.Path.{◌≡◌, refl, ap}
use mathlib.Core.Logic.{◌⊎◌, inl, inr}

pub data Expected {ℓ} (E : Type 0) (A : Type ℓ) : Type ℓ where
  ok : A → Expected E A
  err : E → Expected E A

infixl 5 ◌>>=◌
abbrev pub ◌>>=◌ {ℓ κ} :
    {E : Type 0} {A : Type ℓ} {B : Type κ} → Expected E A → (A → Expected E B) → Expected E B
ok a >>= f = f a
err e >>= f = err e

pub Expected-cases {ℓ} :
    {E : Type 0} {A : Type ℓ} (m : Expected E A) → ((a : A) × (m ≡ ok a)) ⊎ ((e : E) × (m ≡ err e))
Expected-cases (ok a) = inl (a, refl)
Expected-cases (err e) = inr (e, refl)

value_or {ℓ} : {E : Type 0} {A : Type ℓ} → A → Expected E A → A
value_or d (ok a) = a
value_or d (err e) = d

pub ok-injective {ℓ} :
    {E : Type 0} {A : Type ℓ} {a b : A} → ◌≡◌ {A = Expected E A} (ok a) (ok b) → a ≡ b
unfolding value_or
ok-injective {a} h = ap (value_or a) h
