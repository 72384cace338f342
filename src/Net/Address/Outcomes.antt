-- ===== src/Net/Address/Outcomes.antt =====
-- What holds of the result of a parser of src/appwarrior/net/src/address.cpp, if there is one.
use slopline.Base.{
  Bool, true, false, Option, none, some, if◌then◌else◌, Expected, ok, err, ◌>>=◌, ◌≡◌, refl,
}
use slopline.Net.Connection.{NetError}
use slopline.Net.Address.{checked}

-- What holds of a result, if there is one.
abbrev pub After {ℓ κ} : {A : Type ℓ} → (A → Type κ) → Option A → Type κ
After P none = Unit
After P (some a) = P a

abbrev pub Succeeded {ℓ κ} : {A : Type ℓ} → (A → Type κ) → Expected NetError A → Type κ
Succeeded P (err e) = Unit
Succeeded P (ok a) = P a

module _ {ℓ κ} {A : Type ℓ} (P : A → Type κ) where
  pub After-if :
      (b : Bool) (x y : Option A)
      → (b ≡ true → After P x)
      → (b ≡ false → After P y)
      → After P (if b then x else y)
  After-if true x y h k = h refl
  After-if false x y h k = k refl

  pub After-elim {μ} :
      {B : Type μ} (o : Option B) (x : Option A) (f : B → Option A)
      → After P x
      → ((b : B) → After P (f b))
      → After P (elim o [ none ↦ x | some b ↦ f b ])
  After-elim none x f h k = h
  After-elim (some b) x f h k = k b

  pub Succeeded-elim {μ} :
      {B : Type μ} (o : Option B) (x : Expected NetError A) (f : B → Expected NetError A)
      → Succeeded P x
      → ((b : B) → Succeeded P (f b))
      → Succeeded P (elim o [ none ↦ x | some b ↦ f b ])
  Succeeded-elim none x f h k = h
  Succeeded-elim (some b) x f h k = k b

  pub Succeeded-if :
      (b : Bool) (x y : Expected NetError A)
      → Succeeded P x
      → Succeeded P y
      → Succeeded P (if b then x else y)
  Succeeded-if true x y h k = h
  Succeeded-if false x y h k = k

  pub After-bind {μ ν} :
      {B : Type μ} (Q : B → Type ν) (o : Option B) (f : B → Option A)
      → After Q o
      → ((b : B) → Q b → After P (f b))
      → After P (elim o [ none ↦ none | some b ↦ f b ])
  After-bind Q none f h k = tt
  After-bind Q (some b) f h k = k b h

  pub Succeeded-bind {μ ν} :
      {B : Type μ} (Q : B → Type ν) (m : Expected NetError B) (f : B → Expected NetError A)
      → Succeeded Q m
      → ((b : B) → Q b → Succeeded P (f b))
      → Succeeded P (m >>= f)
  Succeeded-bind Q (err e) f h k = tt
  Succeeded-bind Q (ok b) f h k = k b h

  pub Succeeded-checked {μ ν} :
      {B : Type μ} (Q : B → Type ν) (o : Option B) (f : B → Expected NetError A)
      → After Q o
      → ((b : B) → Q b → Succeeded P (f b))
      → Succeeded P (checked o >>= f)
  unfolding checked
  Succeeded-checked Q none f h k = tt
  Succeeded-checked Q (some b) f h k = k b h

pub After-any {ℓ} : {A : Type ℓ} (o : Option A) → After (λ (a : A). Unit {0}) o
After-any none = tt
After-any (some a) = tt
