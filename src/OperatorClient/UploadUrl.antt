-- ===== src/OperatorClient/UploadUrl.antt =====
-- crates/booth-pi/src/operator.rs: `validate_upload_url`. The URL's parser belongs to the crate url, those of addresses to
-- the standard library: parameters. Error texts are shortened.
use Prim.Native.Char.{code}
use Prim.Native.Nat.{bit_and}
use telephone_booth.Base.{
  Bool, true, false, not, ◌&&◌, ◌||◌, String, str_eq, Option, none, some, List, any, ◌==◌,
  if◌then◌else◌, Result, ok, err,
}
use telephone_booth.UrlPolicy.Address.{
  Ipv4Addr, Ipv6Addr, is_loopback_v4, is_private_rfc1918, is_link_local_v4, is_unspecified_v4,
  is_broadcast, is_loopback_v6, is_unspecified_v6,
}
use telephone_booth.UrlPolicy.Policy.{UrlParser, to_ascii_lowercase, codes_eq, is_empty}
use telephone_booth.OperatorClient.Transfer.{UploadError, invalid_url}

unfoldable pub is_ipv4_shared : Ipv4Addr → Bool
is_ipv4_shared ip = ip.a == 100 && bit_and ip.b 0xC0 == 64

unfoldable pub is_ipv4_documentation : Ipv4Addr → Bool
is_ipv4_documentation ip =
    (ip.a == 192 && (ip.b == 0 && ip.c == 2))
    || (ip.a == 198 && (ip.b == 51 && ip.c == 100))
    || (ip.a == 203 && (ip.b == 0 && ip.c == 113))

unfoldable pub is_ipv6_unique_local : Ipv6Addr → Bool
is_ipv6_unique_local ip = bit_and ip.s0 0xFE00 == 0xFC00

unfoldable pub is_ipv6_link_local : Ipv6Addr → Bool
is_ipv6_link_local ip = bit_and ip.s0 0xFFC0 == 0xFE80

unfoldable pub reserved_ipv4 : Ipv4Addr → Bool
unfolding is_ipv4_shared is_ipv4_documentation
reserved_ipv4 ip =
    is_loopback_v4 ip
    || is_private_rfc1918 ip
    || is_link_local_v4 ip
    || is_unspecified_v4 ip
    || is_broadcast ip
    || is_ipv4_shared ip
    || is_ipv4_documentation ip

unfoldable pub reserved_ipv6 : Ipv6Addr → Bool
unfolding is_ipv6_unique_local is_ipv6_link_local
reserved_ipv6 ip =
    is_loopback_v6 ip || is_unspecified_v6 ip || is_ipv6_unique_local ip || is_ipv6_link_local ip

-- `trim_start_matches('[')` and `trim_end_matches(']')`.
unfoldable pub trim_start : String → String
trim_start String.[] = String.[]
trim_start (String.◌∷◌ c s) =
    let rest = trim_start s in if code c == 91 then rest else String.◌∷◌ c s

unfoldable pub trim_end : String → String
trim_end String.[] = String.[]
trim_end (String.◌∷◌ c s) =
    let rest = trim_end s in if code c == 93 && str_eq rest "" then String.[] else String.◌∷◌ c rest

abbrev pub eq_ignore_ascii_case : String → String → Bool
eq_ignore_ascii_case a b = codes_eq (to_ascii_lowercase a) (to_ascii_lowercase b)

abbrev pub is_listed : List String → String → Bool
is_listed allowed_hosts host =
    is_empty allowed_hosts || any (λ h. eq_ignore_ascii_case h host) allowed_hosts

module _ (parse_ipv4 : String → Option Ipv4Addr) (parse_ipv6 : String → Option Ipv6Addr) where
  unfoldable pub is_private_or_reserved_host : String → Bool
  unfolding reserved_ipv4 reserved_ipv6 trim_start trim_end
  is_private_or_reserved_host host =
      if eq_ignore_ascii_case host "localhost" then true else elim (parse_ipv4 host) [
        | some ip ↦ reserved_ipv4 ip
        | none ↦ elim (parse_ipv6 (trim_end (trim_start host))) [
          | some ip ↦ reserved_ipv6 ip
          | none ↦ false
        ]
      ]

  module _ (lib : UrlParser) where
    open lib use {Url, parse, scheme, host_str}

    unfoldable pub check_upload_host : List String → Option String → Result UploadError (Unit {0})
    unfolding is_private_or_reserved_host
    check_upload_host allowed_hosts none = err (invalid_url "upload URL has no host")
    check_upload_host allowed_hosts (some host) =
        if str_eq host ""
        then err (invalid_url "upload URL has no host")
        else if is_private_or_reserved_host host
        then err (invalid_url "upload URL host resolves to a private/reserved address")
        else if not (is_listed allowed_hosts host)
        then err (invalid_url "upload URL host is not in the allowed hosts list")
        else ok _

    unfoldable pub validate_upload_url : String → List String → Result UploadError (Unit {0})
    unfolding check_upload_host
    validate_upload_url raw_url allowed_hosts = elim (parse raw_url) [
      | err e ↦ err (invalid_url "malformed URL")
      | ok url ↦
          if not (str_eq (scheme url) "https")
          then err (invalid_url "upload URL must use HTTPS")
          else check_upload_host allowed_hosts (host_str url)
    ]
