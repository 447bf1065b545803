-- ===== src/Monitor/Validation/Requests.antt =====
-- What an HTTP monitor's request can hold once it is stored.
use beaconpulse.Prelude.{
  ◌≡◌, ◌∙◌, ap, refl, inl, inr, Bool, true, false, ◌&&◌, Option, none, some, List, [], ◌∷◌, arith,
  Bool-cases, leb, length, all,
}
use beaconpulse.Prelude.Int.{ℤ}
use beaconpulse.Text.{Text, trim_space}
use beaconpulse.World.{ok}
use beaconpulse.Monitor.{Kind, http, https, ssl, Settings, Headers}
use beaconpulse.Monitor.Validation.{
  Parsers, Url, header_name, valid_header_value, max_headers, max_body, check_headers,
  validate_request, is_web_url, check_url, check_http, http_settings, valid_http_method, valid_code,
  with_scheme, validate_http, validate_by_kind, normalize_and_validate, with_sensitivity,
}

abbrev are_safe : Headers → Bool
are_safe hs = all (λ h. header_name (h.0) && valid_header_value (h.1)) hs

-- At most 20 headers, every name a token and every value one line of bounded size, the body bounded.
unfoldable pub is_safe_request : Settings → Bool
is_safe_request s =
    leb (length s.headers) max_headers && are_safe s.headers && leb (length s.body) max_body

check_headers-safe : (hs : Headers) → check_headers hs ≡ none → are_safe hs ≡ true
unfolding check_headers
check_headers-safe [] h = refl
check_headers-safe ((name, v) ∷ hs) h =
    let rest : check_headers hs ≡ none = ground arith in ground (arith, check_headers-safe hs rest)

validate_request-safe : (s : Settings) → validate_request s ≡ none → is_safe_request s ≡ true
unfolding validate_request is_safe_request
validate_request-safe s h =
    let checked : check_headers s.headers ≡ none = ground arith in
    ground (arith, check_headers-safe s.headers checked)

abbrev is_nil : List ℤ → Bool
is_nil [] = true
is_nil (c ∷ cs) = false

-- What the prober reads of an HTTP monitor.
pub record IsProbe (parsers : Parsers) (target : Text) (s : Settings) : Type 0 where
  pub url : Url
  pub parsed : parsers.parse_url target ≡ some url
  pub web : is_web_url url ≡ true
  pub method : valid_http_method s.method ≡ true
  pub request : is_safe_request s ≡ true
  pub accepted : all valid_code s.valid_status_codes ≡ true
  pub accepting : is_nil s.valid_status_codes ≡ false

abbrev pub is_web : Kind → Bool
is_web http = true
is_web https = true
is_web ssl = true
is_web _ = false

module _ (parsers : Parsers) where
  check_http-ok :
      (k : Kind) (target : Text) (u : Url) (s : Settings) {t' : Text} {s' : Settings}
      → check_http k target u s ≡ ok (t', s')
      → (t' ≡ target)
        × (s' ≡ http_settings k u s)
        × (valid_http_method s'.method ≡ true)
        × (validate_request s' ≡ none)
        × (all valid_code s'.valid_status_codes ≡ true)
  unfolding check_http
  check_http-ok k target u s h =
      (ground arith, ground arith, ground arith, ground arith, ground arith)

  codes-http_settings :
      (k : Kind) (u : Url) (s : Settings) → is_nil (http_settings k u s).valid_status_codes ≡ false
  unfolding http_settings
  codes-http_settings k u s = ground arith

  check_url-IsProbe :
      (k : Kind) (target : Text) (s : Settings) (o : Option Url) {t' : Text} {s' : Settings}
      → parsers.parse_url target ≡ o
      → check_url k target s o ≡ ok (t', s')
      → IsProbe parsers t' s'
  check_url-IsProbe k target s none e h = ground arith
  check_url-IsProbe k target s (some u) {t' = t'} {s' = s'} e h = elim (Bool-cases (is_web_url u)) [
    | inr odd ↦ ground arith
    | inl web ↦
        let (same, made, method, request, codes) =
          check_http-ok k target u s {t' = t'} {s' = s'} (ground arith) in
        record {
          url = u;
          parsed = ap parsers.parse_url same ∙ e;
          web = web;
          method = method;
          request = validate_request-safe s' request;
          accepted = codes;
          accepting = ap (λ x. is_nil x.valid_status_codes) made ∙ codes-http_settings k u s;
        }
  ]

  normalize_and_validate-check_url :
      (k : Kind) (target : Text) (s : Settings) {t' : Text} {s' : Settings}
      → is_web k ≡ true
      → normalize_and_validate parsers k target s ≡ ok (t', s')
      → check_url k
          (with_scheme k (trim_space target))
          (with_sensitivity parsers s)
          (parsers.parse_url (with_scheme k (trim_space target)))
        ≡ ok (t', s')
  unfolding normalize_and_validate validate_by_kind validate_http
  normalize_and_validate-check_url k target s web h = ground arith

  -- A stored HTTP monitor is one that can be probed: its target parses as a web URL, its method is
  -- known, it accepts some status codes and only real ones, and no header can break out of its line.
  pub normalize_and_validate-IsProbe :
      (k : Kind) (target : Text) (s : Settings) {t' : Text} {s' : Settings}
      → is_web k ≡ true
      → normalize_and_validate parsers k target s ≡ ok (t', s')
      → IsProbe parsers t' s'
  normalize_and_validate-IsProbe k target s {t' = t'} {s' = s'} web h =
      let full = with_scheme k (trim_space target) in
      check_url-IsProbe k full (with_sensitivity parsers s) (parsers.parse_url full) refl
        (normalize_and_validate-check_url k target s {t' = t'} {s' = s'} web h)
