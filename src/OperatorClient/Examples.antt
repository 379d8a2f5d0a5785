-- ===== src/OperatorClient/Examples.antt =====
-- crates/booth-pi/src/operator.rs: a storage service that is busy, and an inactive installation.
use telephone_booth.Base.{
  str_eq, ◌↔◌, refl, ok, ℕ, ◌&&◌, String, Option, none, some, [], ◌==◌, leb, ◌≡◌, if◌then◌else◌,
  err,
}
use telephone_booth.Operator.Errors.{operator_status, is_retryable_operator_error}
use telephone_booth.OperatorClient.Transfer.{io, Response, answered, put_recording}
use telephone_booth.OperatorClient.Tried.{IsPut, put_recording-IsTried}
use telephone_booth.OperatorClient.Answers.{is_text, map_operator_error_body, from_upload_error}
use telephone_booth.OperatorClient.Statuses.{
  is_inactive, is_tried_again, map_operator_error_body-statuses,
}
use telephone_booth.UrlPolicy.Address.{Ipv4Addr, Ipv6Addr}
use telephone_booth.UrlPolicy.Policy.{UrlParser}
use telephone_booth.OperatorClient.UploadUrl.{
  validate_upload_url, check_upload_host, is_private_or_reserved_host, trim_start, trim_end,
  reserved_ipv6, is_ipv6_unique_local, is_ipv6_link_local,
}
use telephone_booth.OperatorClient.Uploads.{IsUploadUrl, validate_upload_url_iff}

abbrev busy_once : ℕ → Response
busy_once k = if k == 0 then answered 503 "busy" else answered 201 ""

put_recording-IsTried_example :
    IsPut busy_once 1000
      (ok 900)
      (put_recording busy_once 1000 (ok 900)).0
      (put_recording busy_once 1000 (ok 900)).1
put_recording-IsTried_example = put_recording-IsTried busy_once 1000 (ok 900)

abbrev inactive_field : String → Option String
inactive_field body = some "installation_inactive"

abbrev no_bytes : String → Option ℕ
no_bytes body = none

map_operator_error_body-statuses_example :
    (is_retryable_operator_error (map_operator_error_body inactive_field no_bytes 409 "{}")
      ≡ leb 500 409)
    × (is_inactive (map_operator_error_body inactive_field no_bytes 409 "{}")
        ≡ (409 == 409 && is_text (inactive_field "{}") "installation_inactive"))
    × (operator_status {0} {T = Unit {0}}
          (err (map_operator_error_body inactive_field no_bytes 409 "{}"))
        ≡ (if 409 == 400 then 422 else 409))
    × (is_retryable_operator_error (from_upload_error inactive_field no_bytes (io "too large"))
        ≡ is_tried_again (io "too large"))
map_operator_error_body-statuses_example =
    map_operator_error_body-statuses inactive_field no_bytes 409 "{}" (io "too large")

record UploadUrl : Type 0 where
  its_scheme : String
  its_host : Option String

-- `https://[::ffff:10.0.0.1]/b`, the address in hexadecimal as the crate writes it.
abbrev mapped_url : UploadUrl
mapped_url = record { its_scheme = "https"; its_host = some "[::ffff:a00:1]" }

abbrev parser : UrlParser
parser = record {
  Url = UploadUrl;
  parse = λ s. ok mapped_url;
  scheme = λ u. u.its_scheme;
  host_str = λ u. u.its_host;
  host = λ u. none;
}

abbrev mapped : Ipv6Addr
mapped = record { s0 = 0; s1 = 0; s2 = 0; s3 = 0; s4 = 0; s5 = 0xFFFF; s6 = 0x0A00; s7 = 1 }

abbrev no_ipv4 : String → Option Ipv4Addr
no_ipv4 host = none

abbrev one_ipv6 : String → Option Ipv6Addr
one_ipv6 host = if str_eq host "::ffff:a00:1" then some mapped else none

-- A private address that is accepted.
mapped_is_accepted :
    validate_upload_url no_ipv4 one_ipv6 parser "https://[::ffff:10.0.0.1]/b" [] ≡ ok _
unfolding validate_upload_url check_upload_host is_private_or_reserved_host trim_start trim_end
    reserved_ipv6 is_ipv6_unique_local is_ipv6_link_local
mapped_is_accepted = refl

validate_upload_url_iff_example :
    (validate_upload_url no_ipv4 one_ipv6 parser "https://[::ffff:10.0.0.1]/b" [] ≡ ok _)
    ↔ IsUploadUrl no_ipv4 one_ipv6 parser [] (ok mapped_url)
validate_upload_url_iff_example =
    validate_upload_url_iff no_ipv4 one_ipv6 parser "https://[::ffff:10.0.0.1]/b" []
