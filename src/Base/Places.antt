-- ===== src/Base/Places.antt =====
-- Places of a list: what a store changes, what every element is, and what stands behind a front.
use Prim.Native.Nat.{ℕ, zero, suc, ◌+◌, ◌<◌}
use mathlib.Core.Logic.{inl, inr}
use mathlib.Core.Path.{◌≡◌, refl, sym, ap, ◌∙◌}
use mathlib.Core.Bool.{Bool, true, ◌&&◌}
use mathlib.Core.List.{List, [], ◌∷◌, ◌++◌}
use native.Mathlib.Omega.{arith}
use slopline.Base.Tests.{◌==◌, Bool-cases, if◌then◌else◌}
use slopline.Base.Lists.{length, get_or, set, drop, replicate, All, drop-append, drop-drop}

module _ {ℓ κ} {A : Type ℓ} (P : A → Type κ) where
  pub All-set : (xs : List A) (i : ℕ) (v : A) → All P xs → P v → All P (set xs i v)
  All-set [] i v h p = tt
  All-set (x ∷ xs) zero v h p = (p, h.1)
  All-set (x ∷ xs) (suc i) v h p = (h.0, All-set xs i v h.1 p)

  pub All-get_or : (xs : List A) (i : ℕ) (d : A) → i < length xs → All P xs → P (get_or xs i d)
  All-get_or [] i d lt h = absurd (omega arith)
  All-get_or (x ∷ xs) zero d lt h = h.0
  All-get_or (x ∷ xs) (suc i) d lt h = All-get_or xs i d (omega arith) h.1

  -- Out of range it is the default.
  pub All-get_or_any : (xs : List A) (i : ℕ) (d : A) → P d → All P xs → P (get_or xs i d)
  All-get_or_any [] i d p h = p
  All-get_or_any (x ∷ xs) zero d p h = h.0
  All-get_or_any (x ∷ xs) (suc i) d p h = All-get_or_any xs i d p h.1

  pub All-append : (xs ys : List A) → All P xs → All P ys → All P (xs ++ ys)
  All-append [] ys h k = k
  All-append (x ∷ xs) ys h k = (h.0, All-append xs ys h.1 k)

pub All-replicate {ℓ κ} :
    {A : Type ℓ} (P : A → Type κ) (n : ℕ) (a : A) → P a → All P (replicate n a)
All-replicate P zero a p = tt
All-replicate P (suc n) a p = (p, All-replicate P n a p)

pub length-set {ℓ} : {A : Type ℓ} (xs : List A) (i : ℕ) (v : A) → length (set xs i v) ≡ length xs
length-set [] i v = refl
length-set (x ∷ xs) zero v = refl
length-set (x ∷ xs) (suc i) v = ap suc (length-set xs i v)

-- `p` at every element.
abbrev pub all : (ℕ → Bool) → List ℕ → Bool
all p [] = true
all p (x ∷ xs) = p x && all p xs

pub all→All :
    (p : ℕ → Bool) (P : ℕ → Type 0) (xs : List ℕ)
    → ((x : ℕ) → p x ≡ true → P x)
    → all p xs ≡ true
    → All P xs
all→All p P [] sound h = tt
all→All p P (x ∷ xs) sound h = elim (Bool-cases (p x)) [
  | inl e ↦ (sound x e, all→All p P xs sound (rw e at h))
  | inr e ↦ absurd (ground (arith, e))
]

pub replicate_add {ℓ} :
    {A : Type ℓ} (m n k : ℕ) (a : A) → m + n ≡ k → replicate k a ≡ replicate m a ++ replicate n a
replicate_add zero n k a e = ap (λ (t : ℕ). replicate t a) {x = k} {y = n} (omega arith)
replicate_add (suc m) n zero a e = absurd (omega arith)
replicate_add (suc m) n (suc k) a e = ap (◌∷◌ a) (replicate_add m n k a (omega arith))

-- The cut falls `k` elements behind the first list.
pub drop_past {ℓ} :
    {A : Type ℓ} (n k j : ℕ) (xs ys : List A)
    → length xs ≡ n
    → j ≡ n + k
    → drop j (xs ++ ys) ≡ drop k ys
drop_past n k j xs ys h e =
    ap (λ (t : ℕ). drop t (xs ++ ys)) e
    ∙ sym (drop-drop n k (xs ++ ys))
    ∙ ap (drop k) (drop-append n xs ys h)

-- A store changes its own place and no other.
pub get_or-set {ℓ} :
    {A : Type ℓ} (xs : List A) (i j : ℕ) (v d : A)
    → i < length xs
    → get_or (set xs i v) j d ≡ (if i == j then v else get_or xs j d)
get_or-set [] i j v d h = absurd (omega arith)
get_or-set (x ∷ xs) zero zero v d h = ground arith
get_or-set (x ∷ xs) zero (suc j) v d h = ground arith
get_or-set (x ∷ xs) (suc i) zero v d h = ground arith
get_or-set (x ∷ xs) (suc i) (suc j) v d h = get_or-set xs i j v d (omega arith) ∙ ground arith

module _ {ℓ} {A : Type ℓ} where
  pub get_or-append_left :
      (xs ys : List A) (i : ℕ) (d : A) → i < length xs → get_or (xs ++ ys) i d ≡ get_or xs i d
  get_or-append_left [] ys i d h = absurd (omega arith)
  get_or-append_left (x ∷ xs) ys zero d h = refl
  get_or-append_left (x ∷ xs) ys (suc i) d h = get_or-append_left xs ys i d (omega arith)

  pub get_or-append_right :
      (xs ys : List A) (i j : ℕ) (d : A) → i ≡ length xs + j → get_or (xs ++ ys) i d ≡ get_or ys j d
  get_or-append_right [] ys i j d h = ap (λ (k : ℕ). get_or ys k d) {x = i} {y = j} (omega arith)
  get_or-append_right (x ∷ xs) ys zero j d h = absurd (omega arith)
  get_or-append_right (x ∷ xs) ys (suc i) j d h = get_or-append_right xs ys i j d (omega arith)

-- What stands behind the same front.
pub append_cancel {ℓ} : {A : Type ℓ} (xs ys zs : List A) → xs ++ ys ≡ xs ++ zs → ys ≡ zs
append_cancel xs ys zs e =
    sym (drop-append (length xs) xs ys refl)
    ∙ ap (drop (length xs)) e
    ∙ drop-append (length xs) xs zs refl
