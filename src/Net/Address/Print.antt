-- ===== src/Net/Address/Print.antt =====
-- IpAddress::to_text of src/appwarrior/net/src/address.cpp.
use slopline.Base.{
  ℕ, zero, suc, ◌+◌, ◌-◌, ◌*◌, ◌/◌, ◌%◌, ◌^◌, bit_or, not, ◌&&◌, List, [], ◌∷◌, ◌++◌, get_or, drop,
  ltb, leb, ◌==◌, if◌then◌else◌,
}
use slopline.Net.Address.{Family, IpAddress}

unfoldable pub digit_character : ℕ → ℕ
digit_character digit = if ltb digit 10 then b'0' + digit else b'a' + (digit - 10)

-- What `std::format` makes of a number in a base, as `{}` and `{:x}` do, if it has at most `count`
-- digits.
unfoldable pub format_digits : ℕ → ℕ → ℕ → List ℕ
format_digits base zero n = []
format_digits base (suc count) n =
    let front = format_digits base count (n / base) in
    if ltb n base then digit_character n ∷ [] else front ++ (digit_character (n % base) ∷ [])

-- Five digits hold every value of 16 bits in base 10, and four in base 16.
unfoldable pub decimal : ℕ → List ℕ
decimal n = format_digits 10 5 n

unfoldable pub hexadecimal : ℕ → List ℕ
hexadecimal n = format_digits 16 4 n

unfoldable pub ipv6_groups : ℕ → List ℕ → List ℕ
ipv6_groups zero bytes = []
ipv6_groups (suc count) bytes =
    bit_or (get_or bytes 0 0 * 2 ^ 8 % 2 ^ 16) (get_or bytes 1 0) ∷ ipv6_groups count (drop 2 bytes)

-- The inner loop: how many groups in front are zero.
unfoldable pub run_length : List ℕ → ℕ
run_length [] = 0
run_length (group ∷ groups) = if group == 0 then suc (run_length groups) else 0

-- The outer loop, on the groups from `run_start` on: the first of the longest runs of zeros. Each
-- round goes at least one group on, so eight rounds are enough for eight groups.
unfoldable pub longest_run : ℕ → ℕ → List ℕ → ℕ × ℕ → ℕ × ℕ
longest_run fuel run_start [] best = best
longest_run zero run_start (group ∷ groups) best = best
longest_run (suc fuel) run_start (group ∷ groups) best =
    let length = run_length (group ∷ groups) in
    let past = longest_run fuel (run_start + 1) groups best in
    let behind =
      longest_run fuel (run_start + length) (drop length (group ∷ groups))
        (if ltb best.1 length then (run_start, length) else best) in
    if group == 0 then behind else past

-- A run of one group is not compressed.
unfoldable pub compressed_run : List ℕ → ℕ × ℕ
compressed_run groups =
    let best = longest_run 8 0 groups (0, 0) in if ltb best.1 2 then (8, 0) else best

-- The last loop, from `i` on, for a run at `best_start`; it goes at least one group on in each round.
unfoldable pub join_groups : ℕ → ℕ → List ℕ → ℕ → ℕ → List ℕ
join_groups zero i groups best_start best_length = []
join_groups (suc fuel) i groups best_start best_length =
    let next = if i == best_start then i + best_length else i + 1 in
    let rest = join_groups fuel next groups best_start best_length in
    if leb 8 i
    then []
    else if i == best_start
    then b':' ∷ b':' ∷ rest
    else (let front = not (i == 0) && not (i == best_start + best_length) in
        (if front then b':' ∷ [] else []) ++ (hexadecimal (get_or groups i 0) ++ rest))

unfoldable pub ipv4_text : List ℕ → ℕ → List ℕ
ipv4_text bytes port =
    decimal (get_or bytes 0 0)
    ++ (b'.'
        ∷ (decimal (get_or bytes 1 0)
            ++ (b'.' ∷ (decimal (get_or bytes 2 0) ++ (b'.' ∷ decimal (get_or bytes 3 0))))))
    ++ (b':' ∷ decimal port)

unfoldable pub ipv6_text : List ℕ → ℕ → List ℕ
ipv6_text bytes port =
    let groups = ipv6_groups 8 bytes in
    let (best_start, best_length) = compressed_run groups in
    b'[' ∷ (join_groups 8 0 groups best_start best_length ++ (b']' ∷ b':' ∷ decimal port))

unfoldable pub to_text : IpAddress → List ℕ
to_text address = elim address.family [
  | Family.ipv4 ↦ ipv4_text address.bytes address.port
  | Family.ipv6 ↦ ipv6_text address.bytes address.port
]
