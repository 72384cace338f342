-- ===== src/Net/Address/Bounds.antt =====
-- What the members of an address hold that src/appwarrior/net/src/address.cpp reads from text.
use slopline.Base.{
  ◌⊎◌, inl, inr, ℕ, ◌+◌, ◌-◌, List, none, some, length, length-append, take, drop, replicate, All,
  All-append, All-replicate, is_empty, if◌then◌else◌, ok, ◌>>=◌, ◌≡◌, refl, subst, drop-append,
  arith,
}
use slopline.Net.Address.{
  Family, IpAddress, new_address, ipv6_address, parse_port, parse_ipv4_host, parse_ipv6_host,
  checked, bracketed_port, from_bracketed, split_port, is_port, from_host, from_text, starts_with,
  find, rfind,
}
use slopline.Net.Address.Outcomes.{
  After, Succeeded, After-if, After-any, Succeeded-elim, Succeeded-if, Succeeded-bind,
  Succeeded-checked,
}
use slopline.Net.Address.Octets.{
  Octet, Port, IsHost, parse_port-Port, parse_ipv4_host-IsHost, parse_ipv6_host-IsHost,
}

-- What the types of the members hold: 16 bytes, of which an IPv4 address uses four, a port of 16 bits
-- and no scope.
pub record IsAddress (address : IpAddress) : Type 0 where
  pub size : length address.bytes ≡ 16
  pub fit : All Octet address.bytes
  pub unused : (address.family ≡ Family.ipv6) ⊎ (drop 4 address.bytes ≡ replicate 12 0)
  pub port_fits : Port address.port
  pub no_scope : address.scope_id ≡ 0

new_address-IsAddress :
    (octets : List ℕ) (port : ℕ) → IsHost 4 octets → Port port → IsAddress (new_address octets port)
unfolding new_address
new_address-IsAddress octets port h fits = record {
  size = omega (arith, length-append octets (replicate 12 0), h.size);
  fit = All-append Octet octets (replicate 12 0) h.fit (All-replicate Octet 12 0 (omega arith));
  unused = inr (drop-append 4 octets (replicate 12 0) h.size);
  port_fits = fits;
  no_scope = refl;
}

ipv6_address-IsAddress :
    (bytes : List ℕ) (port : ℕ) → IsHost 16 bytes → Port port → IsAddress (ipv6_address bytes port)
unfolding ipv6_address
ipv6_address-IsAddress bytes port h fits = record {
  size = h.size;
  fit = h.fit;
  unused = inl refl;
  port_fits = fits;
  no_scope = refl;
}

ipv6_result :
    (host : List ℕ) (port : ℕ)
    → Port port
    → Succeeded IsAddress (do bytes ← checked (parse_ipv6_host host); ok (ipv6_address bytes port))
ipv6_result host port fits =
    Succeeded-checked IsAddress (IsHost 16) (parse_ipv6_host host)
      (λ bytes. ok (ipv6_address bytes port)) (parse_ipv6_host-IsHost host)
      (λ bytes h. ipv6_address-IsAddress bytes port h fits)

bracketed_port-Port : (text : List ℕ) → After Port (bracketed_port text)
unfolding bracketed_port
bracketed_port-Port text =
    After-if Port (is_empty text) (some 0)
      (if starts_with b':' text then parse_port (drop 1 text) else none) (λ e. omega arith)
      (λ e.
        After-if Port (starts_with b':' text) (parse_port (drop 1 text)) none
          (λ k. parse_port-Port (drop 1 text)) (λ k. tt))

from_bracketed-IsAddress : (text : List ℕ) → Succeeded IsAddress (from_bracketed text)
unfolding from_bracketed
from_bracketed-IsAddress text =
    Succeeded-checked IsAddress (λ close. Unit {0}) (find b']' text)
      (λ close. do
        port ← checked (bracketed_port (drop (close + 1) text))
        bytes ← checked (parse_ipv6_host (take (close - 1) (drop 1 text)))
        ok (ipv6_address bytes port))
      (After-any (find b']' text))
      (λ close u.
        Succeeded-checked IsAddress Port (bracketed_port (drop (close + 1) text))
          (λ port. do
            bytes ← checked (parse_ipv6_host (take (close - 1) (drop 1 text)))
            ok (ipv6_address bytes port))
          (bracketed_port-Port (drop (close + 1) text))
          (λ port fits. ipv6_result (take (close - 1) (drop 1 text)) port fits))

split_port-Port : (text : List ℕ) → Succeeded (λ (r : List ℕ × ℕ). Port r.1) (split_port text)
unfolding split_port
split_port-Port text =
    let P : List ℕ × ℕ → Type 0 = λ r. Port r.1 in
    Succeeded-elim P (rfind b':' text) (ok (text, 0)) _ (omega arith) (λ colon.
      Succeeded-if P (is_port colon text) _ (ok (text, 0))
        (Succeeded-checked P Port (parse_port (drop (colon + 1) text)) _
          (parse_port-Port (drop (colon + 1) text)) (λ port h. h))
        (omega arith))

from_host-IsAddress :
    (host : List ℕ) (port : ℕ) → Port port → Succeeded IsAddress (from_host host port)
unfolding from_host
from_host-IsAddress host port h =
    Succeeded-elim IsAddress (find b'.' host) _ _ (ipv6_result host port h) (λ i.
      Succeeded-checked IsAddress (IsHost 4) (parse_ipv4_host host)
        (λ octets. ok (new_address octets port)) (parse_ipv4_host-IsHost host)
        (λ octets k. new_address-IsAddress octets port k h))

from_text-Succeeded : (text : List ℕ) → Succeeded IsAddress (from_text text)
unfolding from_text
from_text-Succeeded text =
    Succeeded-if IsAddress (starts_with b'[' text) (from_bracketed text) _
      (from_bracketed-IsAddress text)
      (Succeeded-bind IsAddress (λ (r : List ℕ × ℕ). Port r.1) (split_port text)
        (λ r. from_host r.0 r.1) (split_port-Port text) (λ r h. from_host-IsAddress r.0 r.1 h))

-- An address that is read from a text has 16 bytes, the last twelve zero if it is an IPv4 address, a
-- port of 16 bits and no scope.
pub from_text-IsAddress :
    (text : List ℕ) (address : IpAddress) → from_text text ≡ ok address → IsAddress address
from_text-IsAddress text address h = subst (Succeeded IsAddress) h (from_text-Succeeded text)
