-- ===== src/Net/Address/RoundTrip.antt =====
-- IPv4 addresses printed and read back: src/appwarrior/net/src/address.cpp.
use slopline.Base.{
  ℕ, ◌+◌, ◌-◌, ◌*◌, ◌^◌, ◌≤◌, ◌<◌, true, false, List, [], ◌∷◌, ◌++◌, some, length, All, le→ltb,
  le→leb, eq→==, ◌≢◌, ok, All-append, take-append, drop_past, is_empty, ◌≡◌, refl, sym, ap, ◌∙◌,
  append_assoc, append-nil, arith,
}
use slopline.Net.Address.{
  new_address, starts_with, checked, is_port, split_port, from_host, from_text, from_chars,
  parse_port,
}
use slopline.Net.Address.Print.{format_digits, decimal}
use slopline.Net.Address.Digits.{
  IsDigit, is_digit-IsDigit, format_digits-IsDigit, length-format_digits_le,
  length-format_digits_pos, read-format_digits,
}
use slopline.Net.Address.Print.{to_text, ipv4_text}
use slopline.Net.Address.Search.{
  find-append, rfind-append, all-is_digit, digits_differ, starts_with_digit,
}
use slopline.Net.Address.Host.{dotted, parse_ipv4_host-dotted}

from_chars_digit :
    (value digit : ℕ) (rest : List ℕ)
    → digit < 10
    → value * 10 + digit ≤ 65535
    → from_chars value ((b'0' + digit) ∷ rest) ≡ from_chars (value * 10 + digit) rest
unfolding from_chars IsDigit
from_chars_digit value digit rest h fits =
    let same : b'0' + digit - b'0' ≡ digit = omega arith in
    rw (is_digit-IsDigit (b'0' + digit) (omega arith, omega arith), same) refl

is_empty_some {ℓ} : {A : Type ℓ} (xs : List A) → 1 ≤ length xs → is_empty xs ≡ false
is_empty_some [] h = absurd (omega arith)
is_empty_some (x ∷ xs) h = refl

parse_port-decimal : (port : ℕ) → port < 2 ^ 16 → parse_port (decimal port) ≡ some port
unfolding parse_port decimal from_chars
parse_port-decimal port h =
    let digits : List ℕ = format_digits 10 5 port in
    let read : from_chars 0 digits ≡ (port, []) =
      ap (from_chars 0) (sym (append-nil digits))
      ∙ read-format_digits 65535 from_chars from_chars_digit 5 port [] (omega arith)
          (omega arith) in
    rw
      (
        is_empty_some digits (length-format_digits_pos 4 port),
        le→ltb 5 (length digits) (length-format_digits_le 5 port),
        read,
        le→leb port 65535 (omega arith),
      )
      refl

not-IsDigit_below : (c : ℕ) → c < b'0' → ¬ IsDigit c
unfolding IsDigit
not-IsDigit_below c h k = omega (arith, k.0)

not-IsDigit_above : (c : ℕ) → b'9' < c → ¬ IsDigit c
unfolding IsDigit
not-IsDigit_above c h k = omega (arith, k.1)

decimal-IsDigit : (n : ℕ) → All IsDigit (decimal n)
unfolding decimal
decimal-IsDigit n = format_digits-IsDigit 5 n

length-decimal_pos : (n : ℕ) → 1 ≤ length (decimal n)
unfolding decimal
length-decimal_pos n = length-format_digits_pos 4 n

module _ (a b c d port : ℕ) (ha : a < 256) (hb : b < 256) (hc : c < 256) (hd : d < 256)
    (hp : port < 2 ^ 16) where
  abbrev host : List ℕ
  host = dotted a b c d

  abbrev text : List ℕ
  text = host ++ (b':' ∷ decimal port)

  abbrev other : (n : ℕ) → All (λ x. x ≢ b':') (decimal n)
  other n =
      digits_differ b':' (decimal n) (not-IsDigit_above b':' (omega arith)) (decimal-IsDigit n)

  host_colon : All (λ x. x ≢ b':') host
  host_colon =
      let append = All-append (λ x. x ≢ b':') in
      append (decimal a) (b'.' ∷ (decimal b ++ (b'.' ∷ (decimal c ++ (b'.' ∷ decimal d)))))
        (other a)
        (
          omega arith,
          append (decimal b) (b'.' ∷ (decimal c ++ (b'.' ∷ decimal d))) (other b)
              (omega arith, append (decimal c) (b'.' ∷ decimal d) (other c) (omega arith, other d)),
        )

  text_start : starts_with b'[' text ≡ false
  text_start =
      let behind : List ℕ = b'.' ∷ (decimal b ++ (b'.' ∷ (decimal c ++ (b'.' ∷ decimal d)))) in
      ap (starts_with b'[') (append_assoc (decimal a) behind (b':' ∷ decimal port))
      ∙ starts_with_digit b'[' (decimal a) (behind ++ (b':' ∷ decimal port))
          (not-IsDigit_above b'[' (omega arith)) (decimal-IsDigit a) (length-decimal_pos a)

  text_port : is_port (length host) text ≡ true
  unfolding is_port
  text_port =
      rw
        (
          drop_past (length host) 1 (length host + 1) host (b':' ∷ decimal port) refl refl,
          is_empty_some (decimal port) (length-decimal_pos port),
          all-is_digit (decimal port) (decimal-IsDigit port),
          find-append b':' host (decimal port) host_colon,
        )
        (eq→== (length host) (length host) refl)

  split_port-text : split_port text ≡ ok (host, port)
  unfolding split_port checked
  split_port-text =
      rw
        (
          split_port,
          rfind-append b':' host (decimal port) (other port),
          text_port,
          drop_past (length host) 1 (length host + 1) host (b':' ∷ decimal port) refl refl,
          parse_port-decimal port hp,
          take-append (length host) host (b':' ∷ decimal port) refl,
        )
        refl

  from_host-dotted : from_host host port ≡ ok (new_address (a ∷ b ∷ c ∷ d ∷ []) port)
  unfolding from_host checked
  from_host-dotted =
      rw
        (
          from_host,
          find-append b'.' (decimal a) (decimal b ++ (b'.' ∷ (decimal c ++ (b'.' ∷ decimal d)))) (
              digits_differ b'.' (decimal a) (not-IsDigit_below b'.' (omega arith))
                (decimal-IsDigit a)),
          parse_ipv4_host-dotted a b c d ha hb hc hd,
        )
        refl

  -- Every IPv4 address and port, printed as text, is read back.
  pub from_text-to_text :
      let address = new_address (a ∷ b ∷ c ∷ d ∷ []) port in
      from_text (to_text address) ≡ ok address
  unfolding from_text to_text ipv4_text new_address
  from_text-to_text = rw (text_start, split_port-text) from_host-dotted
