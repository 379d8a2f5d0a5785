-- ===== src/UrlPolicy/Policy.antt =====
-- crates/booth-pi/src/url_policy.rs: `AudioFetchPolicy`. URL parsing belongs to the crate `url`; what
-- is used of it is the record `UrlParser`, a parameter.
use Prim.Native.Char.{code}
use telephone_booth.Base.{
  Result, ok, err, ℕ, ◌+◌, Bool, true, false, not, ◌&&◌, ◌||◌, String, str_eq, Option, none, some,
  List, [], ◌∷◌, ◌==◌, leb, if◌then◌else◌, any,
}
use telephone_booth.UrlPolicy.Address.{IpAddr, Ipv4Addr, Ipv6Addr, v4, v6, is_private_or_reserved}

-- `url::Host`.
pub data Host : Type 0 where
  domain : String → Host
  ipv4 : Ipv4Addr → Host
  ipv6 : Ipv6Addr → Host

-- `Url::parse` (with the text of its error) and the three accessors that are used.
pub record UrlParser : Type 1 where
  pub Url : Type 0
  pub parse : String → Result String Url
  pub scheme : Url → String
  pub host_str : Url → Option String
  pub host : Url → Option Host

pub data UrlPolicyError : Type 0 where
  invalid_url : String → UrlPolicyError
  -- scheme, allowed
  disallowed_scheme : String → String → UrlPolicyError
  host_not_allowed : String → UrlPolicyError
  private_address : IpAddr → UrlPolicyError
  missing_host : UrlPolicyError

pub record AudioFetchPolicy : Type 0 where
  pub allow_http : Bool
  pub allowed_hosts : List String
  pub allow_private_hosts : Bool

unfoldable pub default : AudioFetchPolicy
default = record { allow_http = false; allowed_hosts = []; allow_private_hosts = false }

-- `to_ascii_lowercase`, as the code points of the result.
abbrev pub lower : ℕ → ℕ
lower c = if leb 0x41 c && leb c 0x5A then c + 32 else c

abbrev pub to_ascii_lowercase : String → List ℕ
to_ascii_lowercase String.[] = []
to_ascii_lowercase (String.◌∷◌ c s) = lower (code c) ∷ to_ascii_lowercase s

abbrev pub codes_eq : List ℕ → List ℕ → Bool
codes_eq [] [] = true
codes_eq (a ∷ as') (b ∷ bs) = a == b && codes_eq as' bs
codes_eq _ _ = false

abbrev pub is_empty {ℓ} : {A : Type ℓ} → List A → Bool
is_empty [] = true
is_empty (x ∷ xs) = false

-- `Some(addr)` if the host is a literal.
abbrev pub literal_ip : Option Host → Option IpAddr
literal_ip (some (ipv4 ip)) = some (v4 ip)
literal_ip (some (ipv6 ip)) = some (v6 ip)
literal_ip _ = none

unfoldable pub scheme_ok : AudioFetchPolicy → String → Bool
scheme_ok p scheme = str_eq scheme "https" || (p.allow_http && str_eq scheme "http")

unfoldable pub allowed_schemes : AudioFetchPolicy → String
allowed_schemes p = if p.allow_http then "https, http" else "https"

unfoldable pub host_allowed : AudioFetchPolicy → String → Bool
host_allowed p host_str =
    any (λ h. codes_eq (to_ascii_lowercase h) (to_ascii_lowercase host_str)) p.allowed_hosts

-- The check of the literal address, the last one.
unfoldable pub check_literal {ℓ} :
    {A : Type ℓ} → AudioFetchPolicy → Option IpAddr → A → Result UrlPolicyError A
check_literal p none url = ok url
check_literal p (some addr) url =
    if not p.allow_private_hosts && is_private_or_reserved addr
    then err (private_address addr)
    else ok url

unfoldable pub check_resolved_ip : AudioFetchPolicy → IpAddr → Result UrlPolicyError (Unit {0})
check_resolved_ip p addr =
    if not p.allow_private_hosts && is_private_or_reserved addr
    then err (private_address addr)
    else ok tt

module _ (lib : UrlParser) where
  open lib use {Url, parse, scheme, host_str, host}

  -- The checks of a URL that has a host, from the allowlist on.
  unfoldable pub check_host : AudioFetchPolicy → Url → String → Result UrlPolicyError Url
  check_host p url h =
      if not (is_empty p.allowed_hosts) && not (host_allowed p h)
      then err (host_not_allowed h)
      else check_literal p (literal_ip (host url)) url

  unfoldable pub check_url : AudioFetchPolicy → Url → Result UrlPolicyError Url
  check_url p url =
      if not (scheme_ok p (scheme url))
      then err (disallowed_scheme (scheme url) (allowed_schemes p))
      else elim (host_str url) [ none ↦ err missing_host | some h ↦ check_host p url h ]

  unfoldable pub validate : AudioFetchPolicy → String → Result UrlPolicyError Url
  validate p raw_url = elim (parse raw_url) [
    | err e ↦ err (invalid_url e)
    | ok url ↦ check_url p url
  ]
