-- ===== src/Monitor/Validation/Tests.antt =====
-- Targets as people paste them.
use beaconpulse.Prelude.{◌≡◌, refl, none, some}
use beaconpulse.Text.{
  codes, text_eq, to_lower, to_upper, trim_space, trim, contains, contains_byte, has_prefix,
  has_suffix, split,
}
use beaconpulse.World.{ok}
use beaconpulse.Monitor.{https, Settings, valid_sensitivity}
use beaconpulse.Monitor.Tests.{plain}
use beaconpulse.Monitor.Validation.{
  pos, Parsers, normalize_and_validate, validate_by_kind, validate_http, with_scheme, is_web_url,
  check_http, http_settings, valid_http_method, validate_request, check_headers, header_name,
  valid_header_value, default_status_codes, validate_github_actions, repository_path, strip_github,
}
use beaconpulse.Monitor.Validation.Requests.{IsProbe, normalize_and_validate-IsProbe}

abbrev parsers : Parsers
parsers = record {
  parse_url = λ t. some (record { scheme = codes "https"; host = codes "h"; hostname = codes "h" });
  split_host_port = λ t. none;
}

abbrev filled : Settings
filled = record plain {
  method = codes "GET";
  valid_status_codes = default_status_codes;
  ssl_expiry_warning_days = pos 30;
  alert_sensitivity = codes "balanced";
}

accepted : normalize_and_validate parsers https (codes " h ") plain ≡ ok (codes "https://h", filled)
unfolding normalize_and_validate validate_by_kind validate_http with_scheme is_web_url check_http
    http_settings valid_http_method validate_request check_headers header_name valid_header_value
    valid_sensitivity text_eq to_upper trim_space contains contains_byte has_prefix
accepted = refl

normalize_and_validate-IsProbe_example : IsProbe parsers (codes "https://h") filled
normalize_and_validate-IsProbe_example =
    normalize_and_validate-IsProbe parsers https (codes " h ") plain refl accepted

pasted :
    validate_github_actions (codes "https://github.com/o/r/tree/main") plain
    ≡ ok (codes "o/r", plain)
unfolding validate_github_actions repository_path strip_github text_eq to_lower trim_space trim
    has_prefix has_suffix split
pasted = refl
