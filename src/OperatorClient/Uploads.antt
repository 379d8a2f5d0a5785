-- ===== src/OperatorClient/Uploads.antt =====
-- crates/booth-pi/src/operator.rs, with the address tests of url_policy.rs: which hosts may get a recording.
use Prim.Native.Nat.{bit_and}
use telephone_booth.Base.{
  Bool, true, false, not, ◌&&◌, ◌||◌, String, str_eq, Option, none, some, List, Result, ok, err,
  ◌≡◌, refl, sym, ap, ap₂, ◌⊎◌, ◌∙◌, ◌↔◌, if◌then◌else◌, Bool-cases, inl, inr, ◌==◌, arith,
}
use telephone_booth.UrlPolicy.Address.{
  Ipv4Addr, Ipv6Addr, is_private_ipv4, is_private_ipv6, is_some_and, to_ipv4_mapped, is_zero_to_4,
  low_v4, is_shared_address_space, is_documentation_ipv4, is_metadata_service, is_unique_local_ipv6,
  is_link_local_ipv6,
}
use telephone_booth.UrlPolicy.Policy.{UrlParser}
use telephone_booth.OperatorClient.Transfer.{UploadError, invalid_url}
use telephone_booth.OperatorClient.UploadUrl.{
  is_ipv4_shared, is_ipv4_documentation, is_ipv6_unique_local, is_ipv6_link_local, reserved_ipv4,
  reserved_ipv6, trim_start, trim_end, eq_ignore_ascii_case, is_private_or_reserved_host, is_listed,
  check_upload_host, validate_upload_url,
}

-- The two policies agree on IPv4 addresses.
reserved-is_private_ipv4 : (ip : Ipv4Addr) → reserved_ipv4 ip ≡ is_private_ipv4 ip
unfolding reserved_ipv4 is_private_ipv4 is_ipv4_shared is_ipv4_documentation is_shared_address_space
    is_documentation_ipv4 is_metadata_service
reserved-is_private_ipv4 ip = ground arith

-- The upload's lets a mapped address pass.
reserved-is_private_ipv6 :
    (ip : Ipv6Addr)
    → is_private_ipv6 ip ≡ (reserved_ipv6 ip || is_some_and (to_ipv4_mapped ip) is_private_ipv4)
unfolding reserved_ipv6 is_private_ipv6 is_ipv6_unique_local is_ipv6_link_local is_unique_local_ipv6
    is_link_local_ipv6
reserved-is_private_ipv6 ip = ground arith

or-first : (a b : Bool) → (a || b) ≡ false → a ≡ false
or-first true b h = h
or-first false b h = refl

some_and-test :
    (t : Bool) (ip : Ipv4Addr) (p : Ipv4Addr → Bool)
    → is_some_and (if t then some ip else none) p ≡ true
    → t ≡ true
some_and-test true ip p h = refl
some_and-test false ip p h = cc

mapped-passes :
    (ip : Ipv6Addr)
    → is_some_and (to_ipv4_mapped ip) is_private_ipv4 ≡ true
    → reserved_ipv6 ip ≡ false
unfolding reserved_ipv6 is_ipv6_unique_local is_ipv6_link_local
mapped-passes ip h =
    let t = some_and-test (is_zero_to_4 ip && ip.s5 == 0xFFFF) (low_v4 ip) is_private_ipv4 h in
    let first : ip.s0 ≡ 0 = ground (arith, t) in
    ground (arith, t, ap (λ s. bit_and s 0xFE00) first, ap (λ s. bit_and s 0xFFC0) first)

reserved_iff :
    (ip : Ipv6Addr)
    → (reserved_ipv6 ip ≡ false)
      ↔ ((is_private_ipv6 ip ≡ false) ⊎ (is_some_and (to_ipv4_mapped ip) is_private_ipv4 ≡ true))
reserved_iff ip = (
  λ h. elim (Bool-cases (is_some_and (to_ipv4_mapped ip) is_private_ipv4)) [
    | inl mapped ↦ inr mapped
    | inr other ↦ inl (reserved-is_private_ipv6 ip ∙ ap₂ (λ r m. r || m) h other)
  ],
  λ h. elim h [
    | inl public ↦ or-first (reserved_ipv6 ip) _ (sym (reserved-is_private_ipv6 ip) ∙ public)
    | inr mapped ↦ mapped-passes ip mapped
  ],
)

refusals_iff :
    (named reserved listed : Bool) (a b c : UploadError)
    → let r : Result UploadError (Unit {0}) =
        if named then err a else if reserved then err b else if not listed then err c else ok _ in
      (r ≡ ok _) ↔ ((named ≡ false) × (reserved ≡ false) × (listed ≡ true))
refusals_iff true reserved listed a b c = (λ h. cc, λ h. cc)
refusals_iff false true listed a b c = (λ h. cc, λ h. cc)
refusals_iff false false false a b c = (λ h. cc, λ h. cc)
refusals_iff false false true a b c = (λ h. (refl, refl, refl), λ h. refl)

secure_iff :
    (https : Bool) (a : UploadError) (r : Result UploadError (Unit {0})) (P : Type 0)
    → ((r ≡ ok _) ↔ P)
    → ((if not https then err a else r) ≡ ok _) ↔ ((https ≡ true) × P)
secure_iff true a r P e = (λ h. (refl, e.0 h), λ h. e.1 h.1)
secure_iff false a r P e = (λ h. cc, λ h. cc)

-- An address that was allowed for audio as well, or a private IPv4 address that is mapped into IPv6.
abbrev pub IsPublicAddress : Option Ipv4Addr → Option Ipv6Addr → Type 0
IsPublicAddress (some ip) other = is_private_ipv4 ip ≡ false
IsPublicAddress none (some ip) =
    (is_private_ipv6 ip ≡ false) ⊎ (is_some_and (to_ipv4_mapped ip) is_private_ipv4 ≡ true)
IsPublicAddress none none = Unit

module _ (parse_ipv4 : String → Option Ipv4Addr) (parse_ipv6 : String → Option Ipv6Addr) where
  abbrev pub IsPublicHost : String → Type 0
  IsPublicHost host =
      (eq_ignore_ascii_case host "localhost" ≡ false)
      × IsPublicAddress (parse_ipv4 host) (parse_ipv6 (trim_end (trim_start host)))

  -- By what the parsers say of the host.
  public_host_iff :
      (host : String) (local : Bool) (a : Option Ipv4Addr) (b : Option Ipv6Addr)
      → ((if local then true else elim a as (λ _. Bool) [
        | some ip ↦ reserved_ipv4 ip
        | none ↦ elim b as (λ _. Bool) [ some ip ↦ reserved_ipv6 ip | none ↦ false ]
      ])
          ≡ false)
        ↔ ((local ≡ false) × IsPublicAddress a b)
  public_host_iff host true a b = (λ h. cc, λ h. cc)
  public_host_iff host false (some ip) b =
      (λ h. (refl, sym (reserved-is_private_ipv4 ip) ∙ h), λ h. reserved-is_private_ipv4 ip ∙ h.1)
  public_host_iff host false none (some ip) =
      (λ h. (refl, (reserved_iff ip).0 h), λ h. (reserved_iff ip).1 h.1)
  public_host_iff host false none none = (λ h. (refl, _), λ h. refl)

  module _ (lib : UrlParser) where
    open lib use {Url, parse, scheme, host_str}

    abbrev pub IsUploadHost : List String → Option String → Type 0
    IsUploadHost allowed_hosts none = ⊥
    IsUploadHost allowed_hosts (some host) =
        (str_eq host "" ≡ false) × IsPublicHost host × (is_listed allowed_hosts host ≡ true)

    abbrev pub IsUploadUrl : List String → Result String Url → Type 0
    IsUploadUrl allowed_hosts (err e) = ⊥
    IsUploadUrl allowed_hosts (ok url) =
        (str_eq (scheme url) "https" ≡ true) × IsUploadHost allowed_hosts (host_str url)

    host_iff :
        (allowed_hosts : List String) (o : Option String)
        → (check_upload_host parse_ipv4 parse_ipv6 lib allowed_hosts o ≡ ok _)
          ↔ IsUploadHost allowed_hosts o
    unfolding check_upload_host is_private_or_reserved_host
    host_iff allowed_hosts none = (λ h. cc, λ h. elim h [ ])
    host_iff allowed_hosts (some host) =
        let public =
          public_host_iff host (eq_ignore_ascii_case host "localhost") (parse_ipv4 host)
            (parse_ipv6 (trim_end (trim_start host))) in
        let tests =
          refusals_iff (str_eq host "") (is_private_or_reserved_host parse_ipv4 parse_ipv6 host)
            (is_listed allowed_hosts host) _ _ _ in
        (
          λ h. let (named, open_, listed) = tests.0 h in (named, public.0 open_, listed),
          λ h. let (named, open_, listed) = h in tests.1 (named, public.1 open_, listed),
        )

    -- A presigned URL is accepted for an upload exactly if it parses, is https, and has a host that is not empty,
    -- not `localhost`, on the list where there is one, and, where the parsers read an address in it, not one that
    -- the address tests of the policy for audio refuse. An IPv6 address that maps an IPv4 address is
    -- accepted whatever the IPv4 address is, which those tests refuse where they refuse the IPv4 address.
    pub validate_upload_url_iff :
        (raw_url : String) (allowed_hosts : List String)
        → (validate_upload_url parse_ipv4 parse_ipv6 lib raw_url allowed_hosts ≡ ok _)
          ↔ IsUploadUrl allowed_hosts (parse raw_url)
    unfolding validate_upload_url
    validate_upload_url_iff raw_url allowed_hosts = go (parse raw_url)
      where
        go :
            (r : Result String Url)
            → ((elim r as (λ _. Result UploadError (Unit {0})) [
              | err e ↦ err (invalid_url "malformed URL")
              | ok url ↦
                  if not (str_eq (scheme url) "https")
                  then err (invalid_url "upload URL must use HTTPS")
                  else check_upload_host parse_ipv4 parse_ipv6 lib allowed_hosts (host_str url)
            ])
                ≡ ok _)
              ↔ IsUploadUrl allowed_hosts r
        go (err e) = (λ h. cc, λ h. elim h [ ])
        go (ok url) =
            secure_iff (str_eq (scheme url) "https") _ _ _ (host_iff allowed_hosts (host_str url))
