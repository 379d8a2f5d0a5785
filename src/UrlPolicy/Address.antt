-- ===== src/UrlPolicy/Address.antt =====
-- crates/booth-pi/src/url_policy.rs: the tests on IP addresses, with those of the standard library.
use Prim.Native.Nat.{bit_and}
use telephone_booth.Base.{
  ℕ, ◌/◌, ◌%◌, Bool, false, ◌&&◌, ◌||◌, Option, none, some, ◌==◌, leb, if◌then◌else◌,
}

-- Four octets, each below 256.
pub record Ipv4Addr : Type 0 where
  pub a : ℕ
  pub b : ℕ
  pub c : ℕ
  pub d : ℕ

-- Eight segments, each below 2 ^ 16.
pub record Ipv6Addr : Type 0 where
  pub s0 : ℕ
  pub s1 : ℕ
  pub s2 : ℕ
  pub s3 : ℕ
  pub s4 : ℕ
  pub s5 : ℕ
  pub s6 : ℕ
  pub s7 : ℕ

pub data IpAddr : Type 0 where
  v4 : Ipv4Addr → IpAddr
  v6 : Ipv6Addr → IpAddr

-- The standard library's predicates on `Ipv4Addr`.
abbrev pub is_loopback_v4 : Ipv4Addr → Bool
is_loopback_v4 ip = ip.a == 127

abbrev pub is_private_rfc1918 : Ipv4Addr → Bool
is_private_rfc1918 ip =
    ip.a == 10 || (ip.a == 172 && (leb 16 ip.b && leb ip.b 31)) || (ip.a == 192 && ip.b == 168)

abbrev pub is_link_local_v4 : Ipv4Addr → Bool
is_link_local_v4 ip = ip.a == 169 && ip.b == 254

abbrev pub equals_v4 : Ipv4Addr → ℕ → ℕ → ℕ → ℕ → Bool
equals_v4 ip a b c d = ip.a == a && (ip.b == b && (ip.c == c && ip.d == d))

abbrev pub is_broadcast : Ipv4Addr → Bool
is_broadcast ip = equals_v4 ip 255 255 255 255

abbrev pub is_unspecified_v4 : Ipv4Addr → Bool
is_unspecified_v4 ip = equals_v4 ip 0 0 0 0

unfoldable pub is_shared_address_space : Ipv4Addr → Bool
is_shared_address_space ip = ip.a == 100 && bit_and ip.b 0xC0 == 64

unfoldable pub is_documentation_ipv4 : Ipv4Addr → Bool
is_documentation_ipv4 ip =
    (ip.a == 192 && (ip.b == 0 && ip.c == 2))
    || (ip.a == 198 && (ip.b == 51 && ip.c == 100))
    || (ip.a == 203 && (ip.b == 0 && ip.c == 113))

unfoldable pub is_metadata_service : Ipv4Addr → Bool
is_metadata_service ip = equals_v4 ip 169 254 169 254

unfoldable pub is_private_ipv4 : Ipv4Addr → Bool
unfolding is_shared_address_space is_documentation_ipv4 is_metadata_service
is_private_ipv4 ip =
    is_loopback_v4 ip
    || is_private_rfc1918 ip
    || is_link_local_v4 ip
    || is_broadcast ip
    || is_unspecified_v4 ip
    || is_shared_address_space ip
    || is_documentation_ipv4 ip
    || is_metadata_service ip

-- The standard library's `Ipv6Addr`: the six first segments, the last two, and `to_ipv4_mapped`.
abbrev pub is_zero_to_4 : Ipv6Addr → Bool
is_zero_to_4 ip = ip.s0 == 0 && (ip.s1 == 0 && (ip.s2 == 0 && (ip.s3 == 0 && ip.s4 == 0)))

abbrev pub is_zero_to_6 : Ipv6Addr → Bool
is_zero_to_6 ip = is_zero_to_4 ip && (ip.s5 == 0 && ip.s6 == 0)

abbrev pub is_loopback_v6 : Ipv6Addr → Bool
is_loopback_v6 ip = is_zero_to_6 ip && ip.s7 == 1

abbrev pub is_unspecified_v6 : Ipv6Addr → Bool
is_unspecified_v6 ip = is_zero_to_6 ip && ip.s7 == 0

abbrev pub low_v4 : Ipv6Addr → Ipv4Addr
low_v4 ip = record { a = ip.s6 / 256; b = ip.s6 % 256; c = ip.s7 / 256; d = ip.s7 % 256 }

abbrev pub to_ipv4_mapped : Ipv6Addr → Option Ipv4Addr
to_ipv4_mapped ip = if is_zero_to_4 ip && ip.s5 == 0xFFFF then some (low_v4 ip) else none

unfoldable pub is_unique_local_ipv6 : Ipv6Addr → Bool
is_unique_local_ipv6 ip = bit_and ip.s0 0xFE00 == 0xFC00

unfoldable pub is_link_local_ipv6 : Ipv6Addr → Bool
is_link_local_ipv6 ip = bit_and ip.s0 0xFFC0 == 0xFE80

-- `is_some_and`.
abbrev pub is_some_and {ℓ} : {A : Type ℓ} → Option A → (A → Bool) → Bool
is_some_and none p = false
is_some_and (some a) p = p a

unfoldable pub is_private_ipv6 : Ipv6Addr → Bool
unfolding is_unique_local_ipv6 is_link_local_ipv6
is_private_ipv6 ip =
    is_loopback_v6 ip
    || is_unspecified_v6 ip
    || is_unique_local_ipv6 ip
    || is_link_local_ipv6 ip
    || is_some_and (to_ipv4_mapped ip) is_private_ipv4

unfoldable pub is_private_or_reserved : IpAddr → Bool
is_private_or_reserved (v4 ip) = is_private_ipv4 ip
is_private_or_reserved (v6 ip) = is_private_ipv6 ip
