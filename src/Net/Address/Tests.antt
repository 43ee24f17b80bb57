-- ===== src/Net/Address/Tests.antt =====
-- Tests of the addresses, and the property at a concrete input.
use text.Mathlib.Text.{◌==◌ as str_eq}
use rain.Base.{
  ℕ, ◌≡◌, refl, ◌⊎◌, inl, inr, true, false, String, List, [], ◌∷◌, Option, none, some, arith,
  length, if◌then◌else◌, Bool-cases,
}
use rain.Core.{Errc, made, ok, err}
use rain.Net.Address.{
  AddressText, af_inet, af_inet6, family, port, sockaddr_len, from_ipv4, from_ipv6, ip_string,
  same_address, address_text, loopback, any_address, with_v4, zero_bytes,
}
use rain.Net.Address.Parsed.{Inet, address_again}

-- A system that knows the loopback of IPv4, and all zeros of IPv6.
abbrev local_host : List ℕ
local_host = 127 ∷ 0 ∷ 0 ∷ 1 ∷ []

abbrev known4 : String → Option (List ℕ)
known4 ip = if str_eq ip "127.0.0.1" then some local_host else none

abbrev known6 : String → Option (List ℕ)
known6 ip = if str_eq ip "::" then some (zero_bytes 16) else none

abbrev few_names : AddressText
few_names = record {
  pton4 = known4;
  pton6 = known6;
  ntop4 = λ bytes. "127.0.0.1";
  ntop6 = λ bytes. "::";
  decimal = λ n. "8080";
}

read_as4 : (ip : String) {bytes : List ℕ} → known4 ip ≡ some bytes → some local_host ≡ some bytes
read_as4 ip h = elim (Bool-cases (str_eq ip "127.0.0.1")) [
  | inl e ↦ rw e at h
  | inr e ↦ let c = rw e at h in absurd (ground (arith, c))
]

read_as6 :
    (ip : String) {bytes : List ℕ} → known6 ip ≡ some bytes → some (zero_bytes 16) ≡ some bytes
read_as6 ip h = elim (Bool-cases (str_eq ip "::")) [
  | inl e ↦ rw e at h
  | inr e ↦ let c = rw e at h in absurd (ground (arith, c))
]

few_names-Inet : Inet few_names
few_names-Inet = record {
  four = λ h. let e = read_as4 _ h in ground (arith, e);
  sixteen = λ h. let e = read_as6 _ h in ground (arith, e);
  read_again4 = λ h. read_as4 _ h;
  read_again6 = λ h. read_as6 _ h;
}

address_again_example :
    let s = with_v4 8080 local_host in
    (port s ≡ 8080)
    × (length s ≡ 128)
    × (same_address few_names s s ≡ true)
    × (((family s ≡ af_inet)
          × (sockaddr_len s ≡ 16)
          × (from_ipv4 few_names (ip_string few_names s) (port s) ≡ ok s))
        ⊎ ((family s ≡ af_inet6)
            × (sockaddr_len s ≡ 28)
            × (from_ipv6 few_names (ip_string few_names s) (port s) ≡ ok s)))
unfolding from_ipv4
address_again_example =
    address_again few_names few_names-Inet "127.0.0.1" 8080 (with_v4 8080 local_host) (omega arith)
      (inl refl)

printed : address_text few_names (loopback 8080) ≡ "127.0.0.1:8080"
unfolding address_text loopback ip_string family port
printed = refl

refused :
    from_ipv4 few_names "localhost" 80
    ≡ err (made Errc.invalid_argument "invalid IPv4 address: localhost")
unfolding from_ipv4
refused = refl

other_port : same_address few_names (loopback 80) (any_address 81) ≡ false
unfolding same_address loopback any_address family port ip_string
other_port = refl
