-- ===== src/Net/Address/Host.antt =====
-- The host of an IPv4 address, printed and read back: src/appwarrior/net/src/address.cpp.
use slopline.Base.{
  ℕ, ◌+◌, ◌-◌, ◌*◌, ◌%◌, ◌≤◌, ◌<◌, Bool, true, false, List, [], ◌∷◌, ◌++◌, some, length, set, All,
  ne→==, le→ltb, lt→leb, ◌≡◌, refl, sym, ap, ◌∙◌, append-nil, arith,
}
use slopline.Net.Address.{
  HostState, first_state, host_loop, on_character, on_digit, on_dot, last_octet, parse_ipv4_host,
}
use slopline.Net.Address.Print.{decimal}
use slopline.Net.Address.Digits.{
  IsDigit, is_digit-IsDigit, format_digits-IsDigit, length-format_digits_pos, read-format_digits,
}
use native.Mathlib.Nat.{mod-eq_of_lt}

host_loop_step :
    (state : HostState) (c : ℕ) (rest : List ℕ) {next : HostState}
    → on_character state c ≡ some next
    → host_loop state (c ∷ rest) ≡ host_loop next rest
unfolding host_loop
host_loop_step state c rest e = rw (host_loop, e) refl

module _ (octets : List ℕ) (octet : ℕ) where
  -- In an octet of which the value is so far `value`.
  abbrev inside : Bool → ℕ → HostState
  inside in_number value = record {
    octets = octets;
    octet = octet;
    value = value;
    in_number = in_number;
  }

  on_character_digit :
      (in_number : Bool) (value digit : ℕ)
      → digit < 10
      → value * 10 + digit ≤ 255
      → on_character (inside in_number value) (b'0' + digit)
        ≡ some (inside true (value * 10 + digit))
  unfolding on_character on_digit IsDigit
  on_character_digit in_number value digit h fits =
      let same : b'0' + digit - b'0' ≡ digit = omega arith in
      rw
        (
          ne→== (b'0' + digit) b'.' (omega arith),
          is_digit-IsDigit (b'0' + digit) (omega arith, omega arith),
          same,
          le→ltb 255 (value * 10 + digit) (omega arith),
        )
        refl

  host_loop_digit :
      (in_number : Bool) (value digit : ℕ) (rest : List ℕ)
      → digit < 10
      → value * 10 + digit ≤ 255
      → host_loop (inside in_number value) ((b'0' + digit) ∷ rest)
        ≡ host_loop (inside true (value * 10 + digit)) rest
  host_loop_digit in_number value digit rest h fits =
      host_loop_step (inside in_number value) (b'0' + digit) rest
        (on_character_digit in_number value digit h fits)

  -- A digit is taken alike in an octet and before it.
  host_loop_enter :
      (value : ℕ) (digits rest : List ℕ)
      → All IsDigit digits
      → 1 ≤ length digits
      → host_loop (inside false value) (digits ++ rest)
        ≡ host_loop (inside true value) (digits ++ rest)
  unfolding host_loop on_character on_digit IsDigit
  host_loop_enter value [] rest h some_digit = absurd (omega arith)
  host_loop_enter value (x ∷ xs) rest h some_digit =
      let same : on_character (inside false value) x ≡ on_character (inside true value) x =
        rw (on_character, ne→== x b'.' (omega (arith, h.0.0))) refl in
      rw (host_loop, same) refl

  host_loop_number :
      (value : ℕ) (rest : List ℕ)
      → value < 256
      → host_loop (inside false 0) (decimal value ++ rest) ≡ host_loop (inside true value) rest
  unfolding decimal
  host_loop_number value rest h =
      host_loop_enter 0 (decimal value) rest (format_digits-IsDigit 5 value)
        (length-format_digits_pos 4 value)
      ∙ read-format_digits 255 (λ n xs. host_loop (inside true n) xs) (host_loop_digit true) 5 value
          rest (omega arith) (omega arith)

  on_character_dot :
      (value : ℕ)
      → value < 256
      → octet < 3
      → on_character (inside true value) b'.'
        ≡ some (record {
          octets = set octets octet value;
          octet = octet + 1;
          value = 0;
          in_number = false;
        })
  unfolding on_character on_dot
  on_character_dot value h k =
      let whole : value % 256 ≡ value = mod-eq_of_lt h in rw (whole, lt→leb 3 octet k) refl

  host_loop_dot :
      (value : ℕ) (rest : List ℕ)
      → value < 256
      → octet < 3
      → host_loop (inside true value) (b'.' ∷ rest)
        ≡ host_loop
            (record {
              octets = set octets octet value;
              octet = octet + 1;
              value = 0;
              in_number = false;
            })
            rest
  host_loop_dot value rest h k =
      host_loop_step (inside true value) b'.' rest (on_character_dot value h k)

  -- A printed octet with its dot.
  host_loop_octet :
      (value : ℕ) (rest : List ℕ)
      → value < 256
      → octet < 3
      → host_loop (inside false 0) (decimal value ++ (b'.' ∷ rest))
        ≡ host_loop
            (record {
              octets = set octets octet value;
              octet = octet + 1;
              value = 0;
              in_number = false;
            })
            rest
  host_loop_octet value rest h k =
      host_loop_number value (b'.' ∷ rest) h ∙ host_loop_dot value rest h k

-- The printed host.
abbrev pub dotted : ℕ → ℕ → ℕ → ℕ → List ℕ
dotted a b c d = decimal a ++ (b'.' ∷ (decimal b ++ (b'.' ∷ (decimal c ++ (b'.' ∷ decimal d)))))

module _ (a b c d : ℕ) (ha : a < 256) (hb : b < 256) (hc : c < 256) (hd : d < 256) where
  host_loop-dotted :
      host_loop first_state (dotted a b c d) ≡ host_loop (inside (a ∷ b ∷ c ∷ 0 ∷ []) 3 true d) []
  host_loop-dotted =
      let after_c : List ℕ = decimal c ++ (b'.' ∷ decimal d) in
      host_loop_octet (0 ∷ 0 ∷ 0 ∷ 0 ∷ []) 0 a (decimal b ++ (b'.' ∷ after_c)) ha (omega arith)
      ∙ host_loop_octet (a ∷ 0 ∷ 0 ∷ 0 ∷ []) 1 b after_c hb (omega arith)
      ∙ host_loop_octet (a ∷ b ∷ 0 ∷ 0 ∷ []) 2 c (decimal d) hc (omega arith)
      ∙ ap (host_loop (inside (a ∷ b ∷ c ∷ 0 ∷ []) 3 false 0)) (sym (append-nil (decimal d)))
      ∙ host_loop_number (a ∷ b ∷ c ∷ 0 ∷ []) 3 d [] hd

  pub parse_ipv4_host-dotted : parse_ipv4_host (dotted a b c d) ≡ some (a ∷ b ∷ c ∷ d ∷ [])
  unfolding parse_ipv4_host last_octet host_loop
  parse_ipv4_host-dotted =
      let whole : d % 256 ≡ d = mod-eq_of_lt hd in
      rw (parse_ipv4_host, host_loop-dotted, whole) refl
