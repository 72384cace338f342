-- ===== src/Net/Address/Search.antt =====
-- Searches of characters in src/appwarrior/net/src/address.cpp.
use slopline.Base.{
  ℕ, ◌≤◌, true, false, List, [], ◌∷◌, ◌++◌, none, some, length, All, all, ne→==, ◌≡◌, ◌≢◌, refl,
  subst, arith,
}
use slopline.Net.Address.{find, rfind, starts_with, is_digit}
use slopline.Net.Address.Digits.{IsDigit, is_digit-IsDigit}

-- Behind a text without the character, it is found where it stands.
pub find-append :
    (c : ℕ) (xs ys : List ℕ) → All (λ x. x ≢ c) xs → find c (xs ++ (c ∷ ys)) ≡ some (length xs)
unfolding find
find-append c [] ys h = ground arith
find-append c (x ∷ xs) ys h = rw (ne→== x c h.0, find-append c xs ys h.1) refl

rfind_absent : (c : ℕ) (xs : List ℕ) → All (λ x. x ≢ c) xs → rfind c xs ≡ none
unfolding rfind
rfind_absent c [] h = refl
rfind_absent c (x ∷ xs) h = rw (rfind_absent c xs h.1, ne→== x c h.0) refl

-- Before a text without the character, it is the last one.
pub rfind-append :
    (c : ℕ) (xs ys : List ℕ) → All (λ x. x ≢ c) ys → rfind c (xs ++ (c ∷ ys)) ≡ some (length xs)
unfolding rfind
rfind-append c [] ys h = rw (rfind_absent c ys h) (ground arith)
rfind-append c (x ∷ xs) ys h = rw (rfind-append c xs ys h) refl

pub all-is_digit : (xs : List ℕ) → All IsDigit xs → all is_digit xs ≡ true
all-is_digit [] h = refl
all-is_digit (x ∷ xs) h = rw (is_digit-IsDigit x h.0, all-is_digit xs h.1) refl

-- Digits are neither colons, dots nor brackets.
pub digits_differ : (c : ℕ) (xs : List ℕ) → ¬ IsDigit c → All IsDigit xs → All (λ x. x ≢ c) xs
digits_differ c [] other h = tt
digits_differ c (x ∷ xs) other h =
    ((λ e. other (subst IsDigit e h.0)), digits_differ c xs other h.1)

-- A text that begins with a digit.
pub starts_with_digit :
    (c : ℕ) (xs ys : List ℕ)
    → ¬ IsDigit c
    → All IsDigit xs
    → 1 ≤ length xs
    → starts_with c (xs ++ ys) ≡ false
unfolding starts_with
starts_with_digit c [] ys other h some_digit = absurd (omega arith)
starts_with_digit c (x ∷ xs) ys other h some_digit = ne→== x c (digits_differ c (x ∷ xs) other h).0
