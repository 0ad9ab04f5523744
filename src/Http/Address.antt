-- ===== src/Http/Address.antt =====
-- Models the tests on addresses of crates/plugin-host/src/http.rs. An IPv4 address is four octets,
-- an IPv6 address eight segments of 16 bits; `s & !(2^k - 1)` clears the low `k` bits of `s`.
use bro_know_my_qqbot.Prelude.{
  ℕ, ◌-◌, ◌/◌, ◌%◌, ◌^◌, Bool, not, ◌&&◌, ◌||◌, Option, none, some, List, ltb, leb, ◌==◌,
  if◌then◌else◌, Result, ok, err, length, any, take,
}
use bro_know_my_qqbot.Prelude.Text.{between, is_empty}
use bro_know_my_qqbot.Http.{
  HttpExecutionError, dns, non_public_address, no_addresses, too_many_addresses, lookup_failed,
}

pub record Ipv4Addr : Type 0 where
  pub a : ℕ
  pub b : ℕ
  pub c : ℕ
  pub d : ℕ

pub record Ipv6Addr : Type 0 where
  pub s0 : ℕ
  pub s1 : ℕ
  pub s2 : ℕ
  pub s3 : ℕ
  pub s4 : ℕ
  pub s5 : ℕ
  pub s6 : ℕ
  pub s7 : ℕ

pub data IpAddr : Type 0 where
  v4 : Ipv4Addr → IpAddr
  v6 : Ipv6Addr → IpAddr

unfoldable pub is_public_ipv4 : Ipv4Addr → Bool
is_public_ipv4 ip = not (
    ip.a == 0
    || ip.a == 10
    || ip.a == 127
    || (ip.a == 100 && between 64 127 ip.b)
    || (ip.a == 169 && ip.b == 254)
    || (ip.a == 172 && between 16 31 ip.b)
    || (ip.a == 192 && ip.b == 0 && ip.c == 0)
    || (ip.a == 192 && ip.b == 88 && ip.c == 99)
    || (ip.a == 192 && ip.b == 0 && ip.c == 2)
    || (ip.a == 192 && ip.b == 168)
    || (ip.a == 198 && (ip.b == 18 || ip.b == 19))
    || (ip.a == 198 && ip.b == 51 && ip.c == 100)
    || (ip.a == 203 && ip.b == 0 && ip.c == 113)
    || leb 224 ip.a)

-- The first five segments are zero.
abbrev pub is_low : Ipv6Addr → Bool
is_low ip = ip.s0 == 0 && ip.s1 == 0 && ip.s2 == 0 && ip.s3 == 0 && ip.s4 == 0

-- `Ipv6Addr::to_ipv4`: the compatible and the mapped addresses, `::a.b.c.d` and `::ffff:a.b.c.d`.
unfoldable pub to_ipv4 : Ipv6Addr → Option Ipv4Addr
to_ipv4 ip =
    if is_low ip && (ip.s5 == 0 || ip.s5 == 0xffff)
    then some (record { a = ip.s6 / 256; b = ip.s6 % 256; c = ip.s7 / 256; d = ip.s7 % 256 })
    else none

abbrev pub clear_low : ℕ → ℕ → ℕ
clear_low k s = s - s % 2 ^ k

-- Unspecified, loopback and multicast addresses.
abbrev pub is_unspecified : Ipv6Addr → Bool
is_unspecified ip = is_low ip && ip.s5 == 0 && ip.s6 == 0 && ip.s7 == 0

abbrev pub is_loopback : Ipv6Addr → Bool
is_loopback ip = is_low ip && ip.s5 == 0 && ip.s6 == 0 && ip.s7 == 1

abbrev pub is_multicast : Ipv6Addr → Bool
is_multicast ip = clear_low 8 ip.s0 == 0xff00

-- `is_public_ipv6` of an address that is no IPv4 address.
unfoldable pub is_public_segments : Ipv6Addr → Bool
is_public_segments ip = not (
    is_unspecified ip
    || is_loopback ip
    || is_multicast ip
    || clear_low 9 ip.s0 == 0xfc00
    || clear_low 6 ip.s0 == 0xfe80
    || clear_low 6 ip.s0 == 0xfec0
    || (ip.s0 == 0x64 && ip.s1 == 0xff9b && (ip.s2 == 0 || ip.s2 == 1))
    || (ip.s0 == 0x2001 && leb ip.s1 0x1ff)
    || (ip.s0 == 0x2001 && ip.s1 == 0xdb8)
    || ip.s0 == 0x2002
    || clear_low 4 ip.s0 == 0x3ff0)

unfoldable pub is_public_ipv6 : Ipv6Addr → Bool
unfolding to_ipv4 is_public_ipv4 is_public_segments
is_public_ipv6 ip = elim (to_ipv4 ip) [
  | some address ↦ is_public_ipv4 address
  | none ↦ is_public_segments ip
]

unfoldable pub is_public_ip : IpAddr → Bool
unfolding is_public_ipv4 is_public_ipv6
is_public_ip (v4 ip) = is_public_ipv4 ip
is_public_ip (v6 ip) = is_public_ipv6 ip

-- `resolve_public_addresses`, of what the lookup answers.
unfoldable pub resolve_public_addresses :
    Option (List IpAddr) → Result (List IpAddr) HttpExecutionError
unfolding is_public_ip
resolve_public_addresses none = err (dns lookup_failed)
resolve_public_addresses (some found) =
    let addresses = take 17 found in
    if is_empty addresses
    then err (dns no_addresses)
    else if ltb 16 (length addresses)
    then err (dns too_many_addresses)
    else if any (λ address. not (is_public_ip address)) addresses
    then err non_public_address
    else ok addresses
