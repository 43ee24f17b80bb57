-- ===== src/Net/Address.antt =====
-- src/net/address.hpp: a SocketAddress by its storage, the bytes of a `sockaddr_storage` in the layout of Linux:
-- the family in the machine's byte order (little-endian), the port in that of the network. `inet_pton`,
-- `inet_ntop` and the formatting of numbers are an interface.
pub mod Parsed
mod Tests
use Prim.Native.String.{◌++◌ as join_text}
use text.Mathlib.Text.{◌==◌ as str_eq}
use rain.Base.{
  ℕ, zero, suc, ◌+◌, ◌*◌, ◌/◌, ◌%◌, Bool, ◌&&◌, String, List, [], ◌∷◌, ◌++◌, Option, none, some,
  ◌==◌, if◌then◌else◌, byte_at, length, take, drop,
}
use rain.Core.{SystemError, made, Errc, Result, ok, err}

abbrev pub af_inet : ℕ
af_inet = 2

abbrev pub af_inet6 : ℕ
af_inet6 = 10

unfoldable pub family : List ℕ → ℕ
family storage = byte_at storage 0 + byte_at storage 1 * 256

-- IPv4 and IPv6 keep the port at the same place.
unfoldable pub port : List ℕ → ℕ
port storage =
    let read = byte_at storage 2 * 256 + byte_at storage 3 in
    if family storage == af_inet then read else (if family storage == af_inet6 then read else 0)

unfoldable pub sockaddr_len : List ℕ → ℕ
sockaddr_len storage = if family storage == af_inet6 then 28 else 16

-- The texts of addresses: what `inet_pton` makes of a text, if it answers 1, for IPv4 and IPv6; what `inet_ntop`
-- leaves in a buffer of zeros; and a number in decimal digits.
pub record AddressText : Type 0 where
  pub pton4 : String → Option (List ℕ)
  pub pton6 : String → Option (List ℕ)
  pub ntop4 : List ℕ → String
  pub ntop6 : List ℕ → String
  pub decimal : ℕ → String

abbrev pub zero_bytes : ℕ → List ℕ
zero_bytes zero = []
zero_bytes (suc n) = 0 ∷ zero_bytes n

-- The default constructor.
abbrev pub empty_storage : List ℕ
empty_storage = zero_bytes 128

-- Bytes that are written at an offset of the storage.
abbrev pub put_at : ℕ → List ℕ → List ℕ → List ℕ
put_at n bytes storage = take n storage ++ (bytes ++ drop (n + length bytes) storage)

-- `ss_family`, and `htons(port)`.
abbrev pub put_family : ℕ → List ℕ → List ℕ
put_family f storage = put_at 0 (f % 256 ∷ f / 256 ∷ []) storage

abbrev pub put_port : ℕ → List ℕ → List ℕ
put_port p storage = put_at 2 (p / 256 ∷ p % 256 ∷ []) storage

-- Where `sin_addr` and `sin6_addr` stand.
abbrev pub with_v4 : ℕ → List ℕ → List ℕ
with_v4 p bytes = put_at 4 bytes (put_port p (put_family af_inet empty_storage))

abbrev pub with_v6 : ℕ → List ℕ → List ℕ
with_v6 p bytes = put_at 8 bytes (put_port p (put_family af_inet6 empty_storage))

unfoldable pub any_address : ℕ → List ℕ
any_address p = with_v4 p (0 ∷ 0 ∷ 0 ∷ 0 ∷ [])

unfoldable pub loopback : ℕ → List ℕ
loopback p = with_v4 p (127 ∷ 0 ∷ 0 ∷ 1 ∷ [])

module _ (text : AddressText) where
  unfoldable pub from_ipv4 : String → ℕ → Result (List ℕ)
  from_ipv4 ip p = elim (text.pton4 ip) [
    | none ↦ err (made Errc.invalid_argument (join_text "invalid IPv4 address: " ip))
    | some bytes ↦ ok (with_v4 p bytes)
  ]

  unfoldable pub from_ipv6 : String → ℕ → Result (List ℕ)
  from_ipv6 ip p = elim (text.pton6 ip) [
    | none ↦ err (made Errc.invalid_argument (join_text "invalid IPv6 address: " ip))
    | some bytes ↦ ok (with_v6 p bytes)
  ]

  unfoldable pub ip_string : List ℕ → String
  ip_string storage =
      if family storage == af_inet
      then text.ntop4 (take 4 (drop 4 storage))
      else (if family storage == af_inet6 then text.ntop6 (take 16 (drop 8 storage)) else "")

  unfoldable pub address_text : List ℕ → String
  address_text storage =
      let number = text.decimal (port storage) in
      let host = ip_string storage in
      if family storage == af_inet6
      then join_text "[" (join_text host (join_text "]:" number))
      else join_text host (join_text ":" number)

  unfoldable pub same_address : List ℕ → List ℕ → Bool
  same_address a b =
      family a == family b && (port a == port b && str_eq (ip_string a) (ip_string b))
