-- ===== src/UrlPolicy/Blocks.antt =====
-- crates/booth-pi/src/url_policy.rs: the refused addresses are the blocks of the comments.
use Prim.Native.Nat.{bit_and}
use telephone_booth.Base.{
  ℕ, ◌+◌, ◌*◌, ◌^◌, ◌≤◌, ◌<◌, Bool, true, false, ◌&&◌, ◌||◌, ◌≡◌, refl, ◌↔◌, ◌⊎◌, inl, inr, arith,
  ◌==◌, leb, if◌then◌else◌,
}
use telephone_booth.Base.Bytes.{passes, passes_each}
use telephone_booth.UrlPolicy.Address.{
  Ipv4Addr, is_shared_address_space, is_documentation_ipv4, is_metadata_service, is_private_ipv4,
  is_loopback_v4, is_private_rfc1918, is_link_local_v4, is_broadcast, is_unspecified_v4,
}

pub record IsOctets (ip : Ipv4Addr) : Type 0 where
  pub a_byte : ip.a < 256
  pub b_byte : ip.b < 256
  pub c_byte : ip.c < 256
  pub d_byte : ip.d < 256

-- The address as a 32-bit number.
abbrev pub to_u32 : Ipv4Addr → ℕ
to_u32 ip = ip.a * 2 ^ 24 + ip.b * 2 ^ 16 + ip.c * 2 ^ 8 + ip.d

-- The addresses from the first to the last of a block.
abbrev pub InBlock : ℕ → ℕ → ℕ → Type 0
InBlock lo hi n = (lo ≤ n) × (n ≤ hi)

-- 0.0.0.0, 10/8, 100.64/10, 127/8, 169.254/16, 172.16/12, 192.0.2/24, 192.168/16, 198.51.100/24,
-- 203.0.113/24 and 255.255.255.255.
abbrev pub Refused : ℕ → Type 0
Refused n =
    InBlock 0 0 n
    ⊎ InBlock 0x0A000000 0x0AFFFFFF n
    ⊎ InBlock 0x64400000 0x647FFFFF n
    ⊎ InBlock 0x7F000000 0x7FFFFFFF n
    ⊎ InBlock 0xA9FE0000 0xA9FEFFFF n
    ⊎ InBlock 0xAC100000 0xAC1FFFFF n
    ⊎ InBlock 0xC0000200 0xC00002FF n
    ⊎ InBlock 0xC0A80000 0xC0A8FFFF n
    ⊎ InBlock 0xC6336400 0xC63364FF n
    ⊎ InBlock 0xCB007100 0xCB0071FF n
    ⊎ InBlock 0xFFFFFFFF 0xFFFFFFFF n

shared_test : ℕ → Bool
shared_test b = (if bit_and b 0xC0 == 64 then leb 64 b && leb b 127 else (leb b 63 || leb 128 b))

shared_table : passes shared_test 256 ≡ true
unfolding passes shared_test
shared_table = refl

shared_range : (b : ℕ) → b < 256 → (bit_and b 0xC0 ≡ 64) ↔ ((64 ≤ b) × (b ≤ 127))
unfolding shared_test
shared_range b h = ground (arith, passes_each shared_test 256 b h shared_table)

-- A test that holds is one of the tests that it is made of.
pub or-cases : (a b : Bool) → (a || b) ≡ true → (a ≡ true) ⊎ (b ≡ true)
or-cases true b h = inl refl
or-cases false b h = inr h

module _ (ip : Ipv4Addr) (v : IsOctets ip) where
  loopback-Refused : is_loopback_v4 ip ≡ true → Refused (to_u32 ip)
  loopback-Refused h = ground arith

  rfc1918-Refused : is_private_rfc1918 ip ≡ true → Refused (to_u32 ip)
  rfc1918-Refused h = ground arith

  link_local-Refused : is_link_local_v4 ip ≡ true → Refused (to_u32 ip)
  link_local-Refused h = ground arith

  broadcast-Refused : is_broadcast ip ≡ true → Refused (to_u32 ip)
  broadcast-Refused h = ground arith

  unspecified-Refused : is_unspecified_v4 ip ≡ true → Refused (to_u32 ip)
  unspecified-Refused h = ground arith

  shared-Refused : is_shared_address_space ip ≡ true → Refused (to_u32 ip)
  unfolding is_shared_address_space
  shared-Refused h = ground (arith, shared_range ip.b)

  documentation-Refused : is_documentation_ipv4 ip ≡ true → Refused (to_u32 ip)
  unfolding is_documentation_ipv4
  documentation-Refused h = ground arith

  metadata-Refused : is_metadata_service ip ≡ true → Refused (to_u32 ip)
  unfolding is_metadata_service
  metadata-Refused h = ground arith

is_private_ipv4_sound :
    (ip : Ipv4Addr) → IsOctets ip → is_private_ipv4 ip ≡ true → Refused (to_u32 ip)
unfolding is_private_ipv4
is_private_ipv4_sound ip v h = elim (or-cases _ (is_metadata_service ip) h) [
  | inr e ↦ metadata-Refused ip v e
  | inl h ↦ elim (or-cases _ (is_documentation_ipv4 ip) h) [
    | inr e ↦ documentation-Refused ip v e
    | inl h ↦ elim (or-cases _ (is_shared_address_space ip) h) [
      | inr e ↦ shared-Refused ip v e
      | inl h ↦ elim (or-cases _ (is_unspecified_v4 ip) h) [
        | inr e ↦ unspecified-Refused ip v e
        | inl h ↦ elim (or-cases _ (is_broadcast ip) h) [
          | inr e ↦ broadcast-Refused ip v e
          | inl h ↦ elim (or-cases _ (is_link_local_v4 ip) h) [
            | inr e ↦ link_local-Refused ip v e
            | inl h ↦ elim (or-cases (is_loopback_v4 ip) (is_private_rfc1918 ip) h) [
              | inl e ↦ loopback-Refused ip v e
              | inr e ↦ rfc1918-Refused ip v e
            ]
          ]
        ]
      ]
    ]
  ]
]

is_private_ipv4_complete :
    (ip : Ipv4Addr) → IsOctets ip → Refused (to_u32 ip) → is_private_ipv4 ip ≡ true
unfolding is_private_ipv4
is_private_ipv4_complete ip v h = ground (arith, shared_range ip.b)

-- An IPv4 address of four bytes is refused exactly when it lies in one of the listed blocks.
pub is_private_ipv4_iff :
    (ip : Ipv4Addr) → IsOctets ip → (is_private_ipv4 ip ≡ true) ↔ Refused (to_u32 ip)
is_private_ipv4_iff ip v = (is_private_ipv4_sound ip v, is_private_ipv4_complete ip v)
