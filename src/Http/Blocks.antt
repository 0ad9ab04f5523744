-- ===== src/Http/Blocks.antt =====
-- The public addresses as the complement of blocks of addresses.
use bro_know_my_qqbot.Prelude.{
  ℕ, ◌+◌, ◌*◌, ◌/◌, ◌%◌, ◌^◌, ◌<◌, ◌≡◌, refl, Bool, true, false, not, ◌&&◌, ◌||◌, List, [], ◌∷◌,
  arith, ltb, leb, ◌==◌, any,
}
use bro_know_my_qqbot.Prelude.Text.{between}
use bro_know_my_qqbot.Http.Address.{
  Ipv4Addr, Ipv6Addr, v4, v6, is_public_ipv4, is_public_ip, is_public_ipv6, to_ipv4,
}

-- A block `first/length`, as its first number and its size.
pub record Block : Type 0 where
  first : ℕ
  size : ℕ

abbrev pub in_block : ℕ → Block → Bool
in_block n b = leb b.first n && ltb n (b.first + b.size)

-- The number of an IPv4 address.
abbrev pub number : Ipv4Addr → ℕ
number ip = ip.a * 2 ^ 24 + ip.b * 2 ^ 16 + ip.c * 2 ^ 8 + ip.d

-- The block `a.b.c.0/length`, for its size `2 ^ (32 - length)`.
abbrev block : ℕ → ℕ → ℕ → ℕ → Block
block a b c size = record { first = a * 2 ^ 24 + b * 2 ^ 16 + c * 2 ^ 8; size = size }

-- 0.0.0.0/8, 10.0.0.0/8, 127.0.0.0/8, 100.64.0.0/10, 169.254.0.0/16, 172.16.0.0/12, 192.0.0.0/24,
-- 192.88.99.0/24, 192.0.2.0/24, 192.168.0.0/16, 198.18.0.0/15, 198.51.100.0/24, 203.0.113.0/24 and
-- 224.0.0.0/3.
abbrev pub reserved_blocks : List Block
reserved_blocks =
    block 0 0 0 (2 ^ 24)
    ∷ block 10 0 0 (2 ^ 24)
    ∷ block 127 0 0 (2 ^ 24)
    ∷ block 100 64 0 (2 ^ 22)
    ∷ block 169 254 0 (2 ^ 16)
    ∷ block 172 16 0 (2 ^ 20)
    ∷ block 192 0 0 (2 ^ 8)
    ∷ block 192 88 99 (2 ^ 8)
    ∷ block 192 0 2 (2 ^ 8)
    ∷ block 192 168 0 (2 ^ 16)
    ∷ block 198 18 0 (2 ^ 17)
    ∷ block 198 51 100 (2 ^ 8)
    ∷ block 203 0 113 (2 ^ 8)
    ∷ block 224 0 0 (2 ^ 29)
    ∷ []

-- An address of four octets.
pub record IsOctets (ip : Ipv4Addr) : Type 0 where
  pub a_small : ip.a < 256
  pub b_small : ip.b < 256
  pub c_small : ip.c < 256
  pub d_small : ip.d < 256

-- Blocks of whole first octets, second octets and third octets.
in_slash_8 :
    (ip : Ipv4Addr) (a : ℕ)
    → IsOctets ip
    → in_block (number ip) (block a 0 0 (2 ^ 24)) ≡ (ip.a == a)
in_slash_8 ip a o = ground (arith, o.a_small, o.b_small, o.c_small, o.d_small)

in_slash_16 :
    (ip : Ipv4Addr) (a b : ℕ)
    → IsOctets ip
    → b < 256
    → in_block (number ip) (block a b 0 (2 ^ 16)) ≡ (ip.a == a && ip.b == b)
in_slash_16 ip a b o l = ground (arith, o.b_small, o.c_small, o.d_small)

in_slash_24 :
    (ip : Ipv4Addr) (a b c : ℕ)
    → IsOctets ip
    → b < 256
    → c < 256
    → in_block (number ip) (block a b c (2 ^ 8)) ≡ (ip.a == a && ip.b == b && ip.c == c)
in_slash_24 ip a b c o l m = ground (arith, o.b_small, o.c_small, o.d_small)

in_100_64 :
    (ip : Ipv4Addr)
    → IsOctets ip
    → in_block (number ip) (block 100 64 0 (2 ^ 22)) ≡ (ip.a == 100 && between 64 127 ip.b)
in_100_64 ip o = ground (arith, o.b_small, o.c_small, o.d_small)

in_172_16 :
    (ip : Ipv4Addr)
    → IsOctets ip
    → in_block (number ip) (block 172 16 0 (2 ^ 20)) ≡ (ip.a == 172 && between 16 31 ip.b)
in_172_16 ip o = ground (arith, o.b_small, o.c_small, o.d_small)

in_198_18 :
    (ip : Ipv4Addr)
    → IsOctets ip
    → in_block (number ip) (block 198 18 0 (2 ^ 17)) ≡ (ip.a == 198 && (ip.b == 18 || ip.b == 19))
in_198_18 ip o = ground (arith, o.b_small, o.c_small, o.d_small)

in_224 :
    (ip : Ipv4Addr) → IsOctets ip → in_block (number ip) (block 224 0 0 (2 ^ 29)) ≡ leb 224 ip.a
in_224 ip o = ground (arith, o.a_small, o.b_small, o.c_small, o.d_small)

or_false : (b : Bool) → (b || false) ≡ b
or_false true = refl
or_false false = refl

or_assoc : (a b c : Bool) → ((a || b) || c) ≡ (a || (b || c))
or_assoc true b c = refl
or_assoc false b c = refl

-- An IPv4 address of four octets is public exactly if its number lies in none of the reserved blocks.
pub is_public_ipv4_lem :
    (ip : Ipv4Addr)
    → IsOctets ip
    → is_public_ipv4 ip ≡ not (any (in_block (number ip)) reserved_blocks)
unfolding is_public_ipv4
is_public_ipv4_lem ip o =
    rw
      (
        in_slash_8 ip 0 o,
        in_slash_8 ip 10 o,
        in_slash_8 ip 127 o,
        in_100_64 ip o,
        in_slash_16 ip 169 254 o (omega arith),
        in_172_16 ip o,
        in_slash_24 ip 192 0 0 o (omega arith) (omega arith),
        in_slash_24 ip 192 88 99 o (omega arith) (omega arith),
        in_slash_24 ip 192 0 2 o (omega arith) (omega arith),
        in_slash_16 ip 192 168 o (omega arith),
        in_198_18 ip o,
        in_slash_24 ip 198 51 100 o (omega arith) (omega arith),
        in_slash_24 ip 203 0 113 o (omega arith) (omega arith),
        in_224 ip o,
        or_false (leb 224 ip.a),
      )
      (simp or_assoc)

-- An IPv4 address in the last two segments of an IPv6 address, behind the segment `s5`.
abbrev pub embedded : ℕ → Ipv4Addr → Ipv6Addr
embedded s5 ip = record {
  s0 = 0;
  s1 = 0;
  s2 = 0;
  s3 = 0;
  s4 = 0;
  s5 = s5;
  s6 = ip.a * 256 + ip.b;
  s7 = ip.c * 256 + ip.d;
}

high_octet : (a b : ℕ) → b < 256 → (a * 256 + b) / 256 ≡ a
high_octet a b h = omega arith

low_octet : (a b : ℕ) → b < 256 → (a * 256 + b) % 256 ≡ b
low_octet a b h = omega arith

-- An IPv6 address that is mapped from an IPv4 address of four octets, `::ffff:a.b.c.d`, or
-- compatible with one, `::a.b.c.d`, is public exactly if the IPv4 address is.
pub is_public_ip-embedded :
    (ip : Ipv4Addr)
    → IsOctets ip
    → (is_public_ip (v6 (embedded 0xffff ip)) ≡ is_public_ip (v4 ip))
      × (is_public_ip (v6 (embedded 0 ip)) ≡ is_public_ip (v4 ip))
unfolding is_public_ip is_public_ipv6 to_ipv4
is_public_ip-embedded ip o =
    let e = high_octet ip.a ip.b o.b_small in
    let f = low_octet ip.a ip.b o.b_small in
    let g = high_octet ip.c ip.d o.d_small in (rw (e, f, g) refl, rw (e, f, g) refl)
