-- ===== src/Net/Address/Octets.antt =====
-- The sizes and bounds of what the parsers of src/appwarrior/net/src/address.cpp take from a host.
use slopline.Base.{
  ℕ, ◌+◌, ◌-◌, ◌*◌, ◌%◌, ◌^◌, ◌<◌, Bool, true, false, not, ◌&&◌, ◌||◌, List, [], ◌∷◌, ◌++◌, none,
  some, length, length-append, length-replicate, length-set, take, drop, set, replicate, All,
  All-set, is_empty, ltb, leb, leb→le, ltb→le, ◌==◌, ==_iff, if◌then◌else◌, ◌≡◌, refl, ◌∙◌, arith,
}
use slopline.Net.Address.{
  HostState, first_state, from_chars, parse_port, on_dot, on_digit, on_character, host_loop,
  last_octet, parse_ipv4_host, emit, expand, parse_groups, parse_compressed, parse_ipv6_host,
  find_compression, is_digit,
}
use slopline.Net.Address.Outcomes.{After, After-if, After-elim, After-bind, After-any}

abbrev pub Octet : ℕ → Type 0
Octet n = n < 256

abbrev pub Port : ℕ → Type 0
Port n = n < 2 ^ 16

and_right : (a : Bool) {b : Bool} → (a && b) ≡ true → b ≡ true
and_right true h = h
and_right false {b} h = absurd (ground arith)

pub parse_port-Port : (text : List ℕ) → After Port (parse_port text)
unfolding parse_port
parse_port-Port text =
    let value = (from_chars 0 text).0 in
    let done = is_empty (from_chars 0 text).1 && leb value 65535 in
    After-if Port (is_empty text || ltb 5 (length text)) none (if done then some value else none)
      (λ e. tt)
      (λ e.
        After-if Port done (some value) none
          (λ k. omega (arith, leb→le value 65535 (and_right (is_empty (from_chars 0 text).1) k)))
          (λ k. tt))

-- The octets written so far.
pub record IsHost (n : ℕ) (octets : List ℕ) : Type 0 where
  pub size : length octets ≡ n
  pub fit : All Octet octets

set-IsHost :
    (octets : List ℕ) (i value : ℕ) → IsHost 4 octets → IsHost 4 (set octets i (value % 2 ^ 8))
set-IsHost octets i value h = record {
  size = length-set octets i (value % 2 ^ 8) ∙ h.size;
  fit = All-set Octet octets i (value % 2 ^ 8) h.fit (omega arith);
}

on_character-IsHost :
    (state : HostState) (c : ℕ)
    → IsHost 4 state.octets
    → After (λ (next : HostState). IsHost 4 next.octets) (on_character state c)
unfolding on_character on_dot on_digit
on_character-IsHost state c h =
    let P : HostState → Type 0 = λ next. IsHost 4 next.octets in
    let value = state.value * 10 + (c - b'0') in
    After-if P (c == b'.') (on_dot state) (if is_digit c then on_digit state (c - b'0') else none)
      (λ e.
        After-if P (not state.in_number || leb 3 state.octet) none (some _) (λ k. tt)
          (λ k. set-IsHost state.octets state.octet state.value h))
      (λ e.
        After-if P (is_digit c) (on_digit state (c - b'0')) none
          (λ k. After-if P (ltb 255 value) none (some _) (λ l. tt) (λ l. h)) (λ k. tt))

host_loop-IsHost :
    (state : HostState) (text : List ℕ)
    → IsHost 4 state.octets
    → After (λ (next : HostState). IsHost 4 next.octets) (host_loop state text)
unfolding host_loop
host_loop-IsHost state [] h = h
host_loop-IsHost state (c ∷ cs) h =
    let P : HostState → Type 0 = λ next. IsHost 4 next.octets in
    After-bind P P (on_character state c) (λ next. host_loop next cs)
      (on_character-IsHost state c h) (λ next k. host_loop-IsHost next cs k)

pub parse_ipv4_host-IsHost : (host : List ℕ) → After (IsHost 4) (parse_ipv4_host host)
unfolding parse_ipv4_host last_octet
parse_ipv4_host-IsHost host =
    After-bind (IsHost 4) (λ (next : HostState). IsHost 4 next.octets) (host_loop first_state host)
      last_octet
      (host_loop-IsHost first_state host (record {
        size = refl;
        fit = (omega arith, (omega arith, (omega arith, (omega arith, tt))));
      }))
      (λ state h.
        After-if (IsHost 4) (not state.in_number || not (state.octet == 3)) none
          (some (set state.octets 3 (state.value % 2 ^ 8))) (λ k. tt)
          (λ k. set-IsHost state.octets 3 state.value h))

emit-IsHost : (groups : List ℕ) (n : ℕ) → length groups * 2 ≡ n → IsHost n (emit groups)
unfolding emit
emit-IsHost [] n h = record { size = h; fit = tt }
emit-IsHost (group ∷ groups) n h =
    let rest = emit-IsHost groups (length groups * 2) refl in
    record { size = omega (arith, rest.size); fit = (omega arith, (omega arith, rest.fit)) }

expand-IsHost : (first last : List ℕ) → After (IsHost 16) (expand first last)
unfolding expand
expand-IsHost first last =
    let count = length first + length last in
    let zeros : List ℕ = replicate (8 - count) 0 in
    After-if (IsHost 16) (ltb 7 count) none (some (emit (first ++ (zeros ++ last)))) (λ e. tt)
      (λ e. emit-IsHost (first ++ (zeros ++ last)) 16 (
        omega (
          arith,
          ltb→le 7 count e,
          length-append first (zeros ++ last),
          length-append zeros last,
          length-replicate {A = ℕ} (8 - count) 0,
        )))

parse_compressed-IsHost : (head tail : List ℕ) → After (IsHost 16) (parse_compressed head tail)
unfolding parse_compressed
parse_compressed-IsHost head tail =
    After-bind (IsHost 16) (λ first. Unit {0}) (parse_groups head)
      (λ first. elim (parse_groups tail) [ none ↦ none | some last ↦ expand first last ])
      (After-any (parse_groups head))
      (λ first u.
        After-bind (IsHost 16) (λ last. Unit {0}) (parse_groups tail) (expand first)
          (After-any (parse_groups tail)) (λ last v. expand-IsHost first last))

pub parse_ipv6_host-IsHost : (host : List ℕ) → After (IsHost 16) (parse_ipv6_host host)
unfolding parse_ipv6_host
parse_ipv6_host-IsHost host =
    After-elim (IsHost 16) (find_compression host)
      (elim (parse_groups host) [
        | none ↦ none
        | some groups ↦ if length groups == 8 then some (emit groups) else none
      ])
      (λ compression. parse_compressed (take compression host) (drop (compression + 2) host))
      (After-bind (IsHost 16) (λ groups. Unit {0}) (parse_groups host)
        (λ groups. if length groups == 8 then some (emit groups) else none)
        (After-any (parse_groups host))
        (λ groups u.
          After-if (IsHost 16) (length groups == 8) (some (emit groups)) none
            (λ e. emit-IsHost groups 16 (omega (arith, (==_iff (length groups) 8).0 e))) (λ e. tt)))
      (λ compression. parse_compressed-IsHost (take compression host) (drop (compression + 2) host))
