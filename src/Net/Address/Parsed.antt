-- ===== src/Net/Address/Parsed.antt =====
-- Reading the text and the port of an address of src/net/address.hpp, and making an address of them again.
use text.Mathlib.TextPositions.{eq_refl}
use rain.Base.{
  ℕ, zero, suc, ◌+◌, ◌≤◌, ◌<◌, ◌≡◌, refl, ◌∙◌, ap₂, ◌⊎◌, inl, inr, true, String, List, [], ◌∷◌,
  ◌++◌, some, arith, ==_refl, length, take, drop, length-append, length-drop, Option-cases,
}
use rain.Core.{ok}
use rain.Net.Address.{
  AddressText, af_inet, af_inet6, family, port, sockaddr_len, with_v4, with_v6, from_ipv4,
  from_ipv6, ip_string, same_address, put_port, put_family, empty_storage,
}

-- What the system documents of `inet_pton` and `inet_ntop`: an address of IPv4 has 4 bytes and one of IPv6 has 16,
-- and the text that is printed of an address that was read is read as the same bytes.
pub record Inet (text : AddressText) : Type 0 where
  pub four : {ip : String} {bytes : List ℕ} → text.pton4 ip ≡ some bytes → length bytes ≡ 4
  pub sixteen : {ip : String} {bytes : List ℕ} → text.pton6 ip ≡ some bytes → length bytes ≡ 16
  pub read_again4 :
      {ip : String} {bytes : List ℕ}
      → text.pton4 ip ≡ some bytes
      → text.pton4 (text.ntop4 bytes) ≡ some bytes
  pub read_again6 :
      {ip : String} {bytes : List ℕ}
      → text.pton6 ip ≡ some bytes
      → text.pton6 (text.ntop6 bytes) ≡ some bytes

take-front : (n : ℕ) (xs ys : List ℕ) → length xs ≡ n → take n (xs ++ ys) ≡ xs
take-front zero [] ys h = refl
take-front zero (x ∷ xs) ys h = absurd (omega (arith, h))
take-front (suc n) [] ys h = absurd (omega (arith, h))
take-front (suc n) (x ∷ xs) ys h = rw (take-front n xs ys (omega (arith, h)))

v4-family : (p : ℕ) (bytes : List ℕ) → family (with_v4 p bytes) ≡ af_inet
unfolding family
v4-family p bytes = refl

v6-family : (p : ℕ) (bytes : List ℕ) → family (with_v6 p bytes) ≡ af_inet6
unfolding family
v6-family p bytes = refl

v4-sockaddr_len : (p : ℕ) (bytes : List ℕ) → sockaddr_len (with_v4 p bytes) ≡ 16
unfolding sockaddr_len family
v4-sockaddr_len p bytes = refl

v6-sockaddr_len : (p : ℕ) (bytes : List ℕ) → sockaddr_len (with_v6 p bytes) ≡ 28
unfolding sockaddr_len family
v6-sockaddr_len p bytes = refl

v4-port : (p : ℕ) (bytes : List ℕ) → p < 65536 → port (with_v4 p bytes) ≡ p
unfolding port family
v4-port p bytes h = omega (arith, h)

v6-port : (p : ℕ) (bytes : List ℕ) → p < 65536 → port (with_v6 p bytes) ≡ p
unfolding port family
v6-port p bytes h = omega (arith, h)

-- The length of bytes that stand between `n` bytes and the rest of the storage.
length-between :
    (n : ℕ) (bytes base : List ℕ)
    → n + length bytes ≤ length base
    → n + length (bytes ++ drop (n + length bytes) base) ≡ length base
length-between n bytes base h = omega (
  arith,
  h,
  length-append bytes (drop (n + length bytes) base),
  length-drop (n + length bytes) base,
)

v4-length : (p : ℕ) (bytes : List ℕ) → length bytes ≡ 4 → length (with_v4 p bytes) ≡ 128
v4-length p bytes h =
    let base = put_port p (put_family af_inet empty_storage) in
    omega (arith, length-between 4 bytes base (omega (arith, h)))

v6-length : (p : ℕ) (bytes : List ℕ) → length bytes ≡ 16 → length (with_v6 p bytes) ≡ 128
v6-length p bytes h =
    let base = put_port p (put_family af_inet6 empty_storage) in
    omega (arith, length-between 8 bytes base (omega (arith, h)))

v4-text :
    (text : AddressText) (p : ℕ) (bytes : List ℕ)
    → length bytes ≡ 4
    → ip_string text (with_v4 p bytes) ≡ text.ntop4 bytes
unfolding ip_string family
v4-text text p bytes h = rw (take-front 4 bytes _ h) refl

v6-text :
    (text : AddressText) (p : ℕ) (bytes : List ℕ)
    → length bytes ≡ 16
    → ip_string text (with_v6 p bytes) ≡ text.ntop6 bytes
unfolding ip_string family
v6-text text p bytes h = rw (take-front 16 bytes _ h) refl

from_ipv4-read :
    (text : AddressText) (p : ℕ) {ip : String} {bytes : List ℕ}
    → text.pton4 ip ≡ some bytes
    → from_ipv4 text ip p ≡ ok (with_v4 p bytes)
unfolding from_ipv4
from_ipv4-read text p e = rw (from_ipv4, e) refl

from_ipv6-read :
    (text : AddressText) (p : ℕ) {ip : String} {bytes : List ℕ}
    → text.pton6 ip ≡ some bytes
    → from_ipv6 text ip p ≡ ok (with_v6 p bytes)
unfolding from_ipv6
from_ipv6-read text p e = rw (from_ipv6, e) refl

same_address_self : (text : AddressText) (s : List ℕ) → same_address text s s ≡ true
unfolding same_address
same_address_self text s =
    rw (==_refl (family s), ==_refl (port s), eq_refl (ip_string text s)) refl

module _ (text : AddressText) (inet : Inet text) where
  -- An address that was made of a text and a port: the port is given back; and from the text and the port that
  -- it gives, the same address is made again, of the same family and with the same 128 bytes, which
  -- compares equal to it.
  pub address_again :
      (ip : String) (p : ℕ) (s : List ℕ)
      → p < 65536
      → (from_ipv4 text ip p ≡ ok s) ⊎ (from_ipv6 text ip p ≡ ok s)
      → (port s ≡ p)
        × (length s ≡ 128)
        × (same_address text s s ≡ true)
        × (((family s ≡ af_inet)
              × (sockaddr_len s ≡ 16)
              × (from_ipv4 text (ip_string text s) (port s) ≡ ok s))
            ⊎ ((family s ≡ af_inet6)
                × (sockaddr_len s ≡ 28)
                × (from_ipv6 text (ip_string text s) (port s) ≡ ok s)))
  unfolding from_ipv4 from_ipv6
  address_again ip p s small (inl made) = elim (Option-cases (text.pton4 ip)) [
    | inl e ↦ let c = rw (from_ipv4, e) at made in absurd (ground (arith, c))
    | inr (bytes, e) ↦
        let it : s ≡ with_v4 p bytes = let c = rw (from_ipv4, e) at made in ground (arith, c) in
        let four = inet.four e in
        rw it (
          v4-port p bytes small,
          v4-length p bytes four,
          same_address_self text (with_v4 p bytes),
          inl (
            v4-family p bytes,
            v4-sockaddr_len p bytes,
            ap₂ (from_ipv4 text) (v4-text text p bytes four) (v4-port p bytes small)
                ∙ from_ipv4-read text p (inet.read_again4 e),
          ),
        )
  ]
  address_again ip p s small (inr made) = elim (Option-cases (text.pton6 ip)) [
    | inl e ↦ let c = rw (from_ipv6, e) at made in absurd (ground (arith, c))
    | inr (bytes, e) ↦
        let it : s ≡ with_v6 p bytes = let c = rw (from_ipv6, e) at made in ground (arith, c) in
        let sixteen = inet.sixteen e in
        rw it (
          v6-port p bytes small,
          v6-length p bytes sixteen,
          same_address_self text (with_v6 p bytes),
          inr (
            v6-family p bytes,
            v6-sockaddr_len p bytes,
            ap₂ (from_ipv6 text) (v6-text text p bytes sixteen) (v6-port p bytes small)
                ∙ from_ipv6-read text p (inet.read_again6 e),
          ),
        )
  ]
