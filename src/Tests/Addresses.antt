-- ===== src/Tests/Addresses.antt =====
-- Runs of the address text of src/appwarrior/net/src/address.cpp.
use slopline.Base.{arith, ℕ, List, [], ◌∷◌, ◌++◌, replicate, ok, err, ◌≡◌, refl}
use slopline.Net.Connection.{NetError}
use slopline.Net.Address.{
  new_address, IpAddress, from_text, starts_with, from_bracketed, checked, find, bracketed_port,
  parse_port, from_chars, is_digit, parse_ipv6_host, find_compression, parse_compressed,
  parse_groups, groups_loop, group_value, hex_value, expand, emit, from_host, is_port, rfind,
  split_port, ipv6_address,
}
use slopline.Net.Address.Print.{
  to_text, ipv6_text, join_groups, compressed_run, longest_run, ipv6_groups, run_length,
  hexadecimal, format_digits, digit_character, decimal,
}
use slopline.Net.Address.RoundTrip.{from_text-to_text}
use slopline.Net.Address.Bounds.{IsAddress, from_text-IsAddress}

abbrev local_text : List ℕ
local_text = b'[' ∷ b':' ∷ b':' ∷ b'1' ∷ b']' ∷ b':' ∷ b'8' ∷ b'0' ∷ []

abbrev local_address : IpAddress
local_address = ipv6_address (replicate 15 0 ++ (1 ∷ [])) 80

abbrev wide_address : IpAddress
wide_address =
    ipv6_address (254 ∷ 128 ∷ (replicate 6 0 ++ (1 ∷ 35 ∷ 0 ∷ 0 ∷ 255 ∷ 254 ∷ 0 ∷ 10 ∷ []))) 5500

read_local : from_text local_text ≡ ok local_address
unfolding from_text starts_with from_bracketed checked find bracketed_port parse_port from_chars
    is_digit parse_ipv6_host find_compression parse_compressed parse_groups groups_loop group_value
    hex_value expand emit from_host is_port rfind split_port ipv6_address
read_local = refl

print_local : to_text local_address ≡ local_text
unfolding ipv6_address to_text ipv6_text join_groups compressed_run longest_run ipv6_groups
    run_length hexadecimal format_digits digit_character decimal
print_local = refl

read_wide : from_text (to_text wide_address) ≡ ok wide_address
unfolding from_text starts_with from_bracketed checked find bracketed_port parse_port from_chars
    is_digit parse_ipv6_host find_compression parse_compressed parse_groups groups_loop group_value
    hex_value expand emit from_host is_port rfind split_port ipv6_address to_text ipv6_text
    join_groups compressed_run longest_run ipv6_groups run_length hexadecimal format_digits
    digit_character decimal
read_wide = refl

read_empty : from_text [] ≡ err NetError.invalid_argument
unfolding from_text starts_with from_bracketed checked find bracketed_port parse_port from_chars
    is_digit parse_ipv6_host find_compression parse_compressed parse_groups groups_loop group_value
    hex_value expand emit from_host is_port rfind split_port ipv6_address
read_empty = refl

from_text-to_text_example :
    from_text (to_text (new_address (192 ∷ 168 ∷ 0 ∷ 255 ∷ []) 5500))
    ≡ ok (new_address (192 ∷ 168 ∷ 0 ∷ 255 ∷ []) 5500)
from_text-to_text_example =
    from_text-to_text 192 168 0 255 5500 (omega arith) (omega arith) (omega arith) (omega arith)
      (omega arith)

from_text-IsAddress_example : IsAddress local_address
from_text-IsAddress_example = from_text-IsAddress local_text local_address read_local
