-- ===== src/UrlPolicy/Blocks6.antt =====
-- crates/booth-pi/src/url_policy.rs: the refused IPv6 addresses are the blocks of the comments.
use Prim.Native.Nat.{bit_and}
use telephone_booth.Base.{
  ℕ, ◌+◌, ◌*◌, ◌≤◌, ◌<◌, Bool, true, ◌&&◌, ◌||◌, ◌≡◌, refl, ◌↔◌, ◌⊎◌, inl, inr, arith, ◌==◌, leb,
  if◌then◌else◌,
}
use telephone_booth.Base.Bytes.{passes, passes_each}
use telephone_booth.UrlPolicy.Address.{
  Ipv6Addr, low_v4, is_some_and, to_ipv4_mapped, is_loopback_v6, is_unspecified_v6, is_private_ipv4,
  is_private_ipv6, is_unique_local_ipv6, is_link_local_ipv6,
}
use telephone_booth.UrlPolicy.Blocks.{
  or-cases, InBlock, Refused, IsOctets, to_u32, is_private_ipv4_iff,
}

pub record IsSegments (ip : Ipv6Addr) : Type 0 where
  pub s0_word : ip.s0 < 65536
  pub s1_word : ip.s1 < 65536
  pub s2_word : ip.s2 < 65536
  pub s3_word : ip.s3 < 65536
  pub s4_word : ip.s4 < 65536
  pub s5_word : ip.s5 < 65536
  pub s6_word : ip.s6 < 65536
  pub s7_word : ip.s7 < 65536

local_test : ℕ → Bool
local_test s =
    (if bit_and s 0xFE00 == 0xFC00
      then leb 0xFC00 s && leb s 0xFDFF
      else (leb s 0xFBFF || leb 0xFE00 s))
    && (if bit_and s 0xFFC0 == 0xFE80
        then leb 0xFE80 s && leb s 0xFEBF
        else (leb s 0xFE7F || leb 0xFEC0 s))

local_table : passes local_test 65536 ≡ true
unfolding passes local_test
local_table = refl

local_range :
    (s : ℕ)
    → s < 65536
    → ((bit_and s 0xFE00 ≡ 0xFC00) ↔ InBlock 0xFC00 0xFDFF s)
      × ((bit_and s 0xFFC0 ≡ 0xFE80) ↔ InBlock 0xFE80 0xFEBF s)
unfolding local_test
local_range s h = ground (arith, passes_each local_test 65536 s h local_table)

-- The first five segments are zero.
abbrev pub IsLow : Ipv6Addr → Type 0
IsLow ip = (ip.s0 ≡ 0) × (ip.s1 ≡ 0) × (ip.s2 ≡ 0) × (ip.s3 ≡ 0) × (ip.s4 ≡ 0)

-- The last two segments as a 32-bit number.
abbrev pub last_32 : Ipv6Addr → ℕ
last_32 ip = ip.s6 * 65536 + ip.s7

-- fc00::/7, fe80::/10, the two addresses :: and ::1, and ::ffff:0:0/96 over a refused IPv4 address.
abbrev pub Refused6 : Ipv6Addr → Type 0
Refused6 ip =
    InBlock 0xFC00 0xFDFF ip.s0
    ⊎ InBlock 0xFE80 0xFEBF ip.s0
    ⊎ (IsLow ip × (ip.s5 ≡ 0) × (last_32 ip ≤ 1))
    ⊎ (IsLow ip × (ip.s5 ≡ 0xFFFF) × Refused (last_32 ip))

low_v4-IsOctets : (ip : Ipv6Addr) → IsSegments ip → IsOctets (low_v4 ip)
low_v4-IsOctets ip v = omega arith

to_u32-low_v4 : (ip : Ipv6Addr) → to_u32 (low_v4 ip) ≡ last_32 ip
to_u32-low_v4 ip = omega arith

mapped_iff :
    (ip : Ipv6Addr) → IsSegments ip → (is_private_ipv4 (low_v4 ip) ≡ true) ↔ Refused (last_32 ip)
mapped_iff ip v = rw (← to_u32-low_v4 ip) (is_private_ipv4_iff (low_v4 ip) (low_v4-IsOctets ip v))

is_mapped : Ipv6Addr → Bool
is_mapped ip = is_some_and (to_ipv4_mapped ip) is_private_ipv4

-- The mapped test holds of a mapped address whose IPv4 address is refused.
is_mapped-inv :
    (ip : Ipv6Addr)
    → is_mapped ip ≡ true
    → IsLow ip × (ip.s5 ≡ 0xFFFF) × (is_private_ipv4 (low_v4 ip) ≡ true)
unfolding is_mapped
is_mapped-inv ip h = ground arith

module _ (ip : Ipv6Addr) (v : IsSegments ip) where
  low_pair : is_loopback_v6 ip ≡ true ⊎ is_unspecified_v6 ip ≡ true → Refused6 ip
  low_pair h = inr (inr (inl (ground arith)))

  unique-Refused6 : is_unique_local_ipv6 ip ≡ true → Refused6 ip
  unfolding is_unique_local_ipv6
  unique-Refused6 h = inl (ground (arith, local_range ip.s0 v.s0_word))

  link_local-Refused6 : is_link_local_ipv6 ip ≡ true → Refused6 ip
  unfolding is_link_local_ipv6
  link_local-Refused6 h = inr (inl (ground (arith, local_range ip.s0 v.s0_word)))

  mapped-Refused6 : is_mapped ip ≡ true → Refused6 ip
  mapped-Refused6 h =
      let (low, s5, refused) = is_mapped-inv ip h in
      inr (inr (inr (low, s5, (mapped_iff ip v).0 refused)))

  sound6 : is_private_ipv6 ip ≡ true → Refused6 ip
  unfolding is_private_ipv6 is_mapped
  sound6 h = elim (or-cases _ (is_mapped ip) h) [
    | inr e ↦ mapped-Refused6 e
    | inl h ↦ elim (or-cases _ (is_link_local_ipv6 ip) h) [
      | inr e ↦ link_local-Refused6 e
      | inl h ↦ elim (or-cases _ (is_unique_local_ipv6 ip) h) [
        | inr e ↦ unique-Refused6 e
        | inl h ↦ low_pair (or-cases _ (is_unspecified_v6 ip) h)
      ]
    ]
  ]

  complete6 : Refused6 ip → is_private_ipv6 ip ≡ true
  unfolding is_private_ipv6
  complete6 (inl h) = ground (arith, local_range ip.s0 v.s0_word)
  complete6 (inr (inl h)) = ground (arith, local_range ip.s0 v.s0_word)
  complete6 (inr (inr (inl h))) = ground arith
  complete6 (inr (inr (inr (low, s5, refused)))) =
      let private : is_private_ipv4 (low_v4 ip) ≡ true = (mapped_iff ip v).1 refused in
      mapped_private low s5 private
    where
      mapped_private :
          IsLow ip → ip.s5 ≡ 0xFFFF → is_private_ipv4 (low_v4 ip) ≡ true → is_private_ipv6 ip ≡ true
      mapped_private low s5 private = ground arith

-- An IPv6 address of eight 16-bit segments is refused exactly when it lies in one of the listed blocks.
pub is_private_ipv6_iff :
    (ip : Ipv6Addr) → IsSegments ip → (is_private_ipv6 ip ≡ true) ↔ Refused6 ip
is_private_ipv6_iff ip v = (sound6 ip v, complete6 ip v)
