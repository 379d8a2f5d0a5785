-- ===== src/UrlPolicy/Examples.antt =====
-- crates/booth-pi/src/url_policy.rs: addresses and URLs like those of the tests.
use telephone_booth.Base.{
  ok, err, true, false, String, str_eq, Option, some, [], ◌∷◌, ◌≡◌, refl, ◌↔◌, arith, if◌then◌else◌,
}
use telephone_booth.UrlPolicy.Address.{
  Ipv4Addr, Ipv6Addr, v4, is_private_ipv4, is_private_ipv6, is_private_or_reserved,
}
use telephone_booth.UrlPolicy.Policy.{
  Host, domain, ipv4, UrlParser, private_address, AudioFetchPolicy, check_url, validate, scheme_ok,
  check_host, host_allowed, check_literal,
}
use telephone_booth.UrlPolicy.Blocks.{Refused, to_u32, is_private_ipv4_iff}
use telephone_booth.UrlPolicy.Blocks6.{Refused6, is_private_ipv6_iff}
use telephone_booth.UrlPolicy.Accepts.{Granted, validate_iff}

abbrev shared : Ipv4Addr
shared = record { a = 100; b = 64; c = 1; d = 10 }

abbrev mapped : Ipv6Addr
mapped = record { s0 = 0; s1 = 0; s2 = 0; s3 = 0; s4 = 0; s5 = 0xFFFF; s6 = 0x0A00; s7 = 1 }

is_private_ipv4_iff_example : (is_private_ipv4 shared ≡ true) ↔ Refused (to_u32 shared)
is_private_ipv4_iff_example = is_private_ipv4_iff shared record {
  a_byte = omega arith;
  b_byte = omega arith;
  c_byte = omega arith;
  d_byte = omega arith;
}

is_private_ipv6_iff_example : (is_private_ipv6 mapped ≡ true) ↔ Refused6 mapped
is_private_ipv6_iff_example = is_private_ipv6_iff mapped record {
  s0_word = omega arith;
  s1_word = omega arith;
  s2_word = omega arith;
  s3_word = omega arith;
  s4_word = omega arith;
  s5_word = omega arith;
  s6_word = omega arith;
  s7_word = omega arith;
}

record ParsedUrl : Type 0 where
  its_scheme : String
  its_host_str : Option String
  its_host : Option Host

abbrev media_url : ParsedUrl
media_url = record {
  its_scheme = "https";
  its_host_str = some "media.example.org";
  its_host = some (domain "media.example.org");
}

abbrev private_url : ParsedUrl
private_url = record {
  its_scheme = "https";
  its_host_str = some "100.64.1.10";
  its_host = some (ipv4 shared);
}

abbrev parser : UrlParser
parser = record {
  Url = ParsedUrl;
  parse = λ s.
      if str_eq s "https://media.example.org/clip.flac"
      then ok media_url
      else if str_eq s "https://100.64.1.10/clip.flac"
      then ok private_url
      else err "relative URL without a base";
  scheme = λ u. u.its_scheme;
  host_str = λ u. u.its_host_str;
  host = λ u. u.its_host;
}

abbrev listed : AudioFetchPolicy
listed = record {
  allow_http = false;
  allowed_hosts = "Media.Example.org" ∷ [];
  allow_private_hosts = false;
}

abbrev open_hosts : AudioFetchPolicy
open_hosts = record { allow_http = false; allowed_hosts = []; allow_private_hosts = false }

fetches : validate parser listed "https://media.example.org/clip.flac" ≡ ok media_url
unfolding validate check_url scheme_ok check_host host_allowed check_literal
fetches = refl

refuses_private :
    validate parser open_hosts "https://100.64.1.10/clip.flac" ≡ err (private_address (v4 shared))
unfolding validate check_url scheme_ok check_host host_allowed check_literal is_private_or_reserved
    is_private_ipv4
refuses_private = refl

validate_iff_example :
    (validate parser listed "https://media.example.org/clip.flac" ≡ ok media_url) ↔ (
      (parser.parse "https://media.example.org/clip.flac" ≡ ok media_url)
      × Granted parser listed media_url)
validate_iff_example = validate_iff parser listed "https://media.example.org/clip.flac" media_url
