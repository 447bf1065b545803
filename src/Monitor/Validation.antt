-- ===== src/Monitor/Validation.antt =====
-- Targets and settings cleaned up and checked: backend/internal/domain/monitor/rules.go. How a URL and a
-- host:port are parsed is a parameter.
pub mod Requests
pub mod Repositories
mod Tests
use beaconpulse.Prelude.{
  ℕ, ◌*◌, Bool, true, false, not, ◌&&◌, ◌||◌, Option, none, some, List, [], ◌∷◌, ◌++◌, all, String,
  ltb, leb, ◌==◌, if◌then◌else◌, length, take, drop, ◌-◌,
}
use beaconpulse.Prelude.Int.{ℤ, pos, ltb_ℤ, eqb_ℤ}
use beaconpulse.Text.{
  Text, codes, text_eq, is_empty, trim_space, trim, to_lower, to_upper, has_prefix, has_suffix,
  contains, contains_byte, split,
}
use beaconpulse.World.{AppError, Result, ok, err, validation_error}
use beaconpulse.Monitor.{
  Kind, http, https, ssl, tcp, icmp, dns, heartbeat, github_actions, is_supported, Settings,
  Headers, heartbeat_target, balanced, valid_sensitivity,
}

abbrev pub is_one_of : List String → Text → Bool
is_one_of [] s = false
is_one_of (n ∷ ns) s = text_eq s (codes n) || is_one_of ns s

unfoldable pub valid_dns_type : Text → Bool
valid_dns_type s = is_one_of ("A" ∷ "AAAA" ∷ "CNAME" ∷ "MX" ∷ "TXT" ∷ "NS" ∷ "SOA" ∷ "CAA" ∷ []) s

unfoldable pub valid_http_method : Text → Bool
valid_http_method s = is_one_of ("GET" ∷ "POST" ∷ "HEAD" ∷ "PUT" ∷ "DELETE" ∷ "PATCH" ∷ []) s

abbrev pub max_headers : ℕ
max_headers = 20

abbrev pub max_header_value : ℕ
max_header_value = 8 * 1024

abbrev pub max_body : ℕ
max_body = 8 * 1024

abbrev in_range : ℕ → ℕ → ℕ → Bool
in_range low high c = leb low c && leb c high

abbrev is_token_byte : ℕ → Bool
is_token_byte c =
    in_range 48 57 c
    || in_range 65 90 c
    || in_range 97 122 c
    || contains_byte (codes "!#$%&'*+.^_`|~-") c

-- The regular expression of a header's name.
unfoldable pub header_name : Text → Bool
header_name s = not (is_empty s) && all is_token_byte s

unfoldable pub valid_header_value : Text → Bool
valid_header_value v =
    leb (length v) max_header_value && not (contains_byte v 13 || contains_byte v 10)

abbrev bad_headers : String → AppError
bad_headers m = validation_error m ("settings.headers" ∷ [])

-- The loop over the headers; the code visits a map, in no fixed order.
unfoldable pub check_headers : Headers → Option AppError
check_headers [] = none
check_headers ((name, v) ∷ hs) =
    let rest = check_headers hs in
    if not (header_name name)
    then some (bad_headers "invalid header name")
    else if not (valid_header_value v)
    then some (bad_headers "invalid header value")
    else rest

abbrev first_error : Option AppError → Option AppError → Option AppError
first_error (some e) next = some e
first_error none next = next

unfoldable pub validate_request : Settings → Option AppError
validate_request s =
    if ltb max_headers (length s.headers)
    then some (bad_headers "too many headers")
    else first_error (check_headers s.headers) (
        if ltb max_body (length s.body)
        then some (validation_error "request body too large" ("settings.body" ∷ []))
        else none)

-- What url.Parse returns of a URL.
pub record Url : Type 0 where
  pub scheme : Text
  pub host : Text
  pub hostname : Text

pub record Parsers : Type 0 where
  pub parse_url : Text → Option Url
  pub split_host_port : Text → Option (Text × Text)

abbrev pub Checked : Type 0
Checked = Result (Text × Settings)

abbrev pub is_http : Kind → Bool
is_http http = true
is_http _ = false

abbrev pub is_ssl : Kind → Bool
is_ssl ssl = true
is_ssl _ = false

unfoldable pub with_scheme : Kind → Text → Text
with_scheme k target =
    if contains target (codes "://")
    then target
    else if is_http k
    then codes "http://" ++ target
    else codes "https://" ++ target

abbrev pub default_status_codes : List ℤ
default_status_codes =
    pos 200
    ∷ pos 201
    ∷ pos 202
    ∷ pos 203
    ∷ pos 204
    ∷ pos 206
    ∷ pos 300
    ∷ pos 301
    ∷ pos 302
    ∷ pos 303
    ∷ pos 304
    ∷ pos 307
    ∷ pos 308
    ∷ []

abbrev pub valid_code : ℤ → Bool
valid_code c = not (ltb_ℤ c (pos 100) || ltb_ℤ (pos 599) c)

abbrev pub codes_or_default : List ℤ → List ℤ
codes_or_default [] = default_status_codes
codes_or_default (c ∷ cs) = c ∷ cs

abbrev or_text : Text → Text → Text
or_text s d = if is_empty s then d else s

abbrev warning_days : Bool → ℤ → ℤ
warning_days needed d = if needed && eqb_ℤ d (pos 0) then pos 30 else d

-- The settings of an HTTP monitor with the defaults filled in.
unfoldable pub http_settings : Kind → Url → Settings → Settings
http_settings k u s = record s {
  method = to_upper (or_text s.method (codes "GET"));
  valid_status_codes = codes_or_default s.valid_status_codes;
  ssl_expiry_warning_days =
      warning_days (is_ssl k || text_eq u.scheme (codes "https")) s.ssl_expiry_warning_days;
}

unfoldable pub is_web_url : Url → Bool
is_web_url u =
    not (is_empty u.host) && (text_eq u.scheme (codes "http") || text_eq u.scheme (codes "https"))

abbrev after_request : Option AppError → Checked → Checked
after_request (some e) c = err e
after_request none c = c

unfoldable pub check_http : Kind → Text → Url → Settings → Checked
check_http k target u s =
    let s' = http_settings k u s in
    if not (valid_http_method s'.method)
    then err (validation_error "invalid HTTP method" ("settings.method" ∷ []))
    else after_request (validate_request s') (
        if all valid_code s'.valid_status_codes
        then ok (target, s')
        else err (
            validation_error "invalid status code in valid_status_codes"
              ("settings.valid_status_codes" ∷ [])))

abbrev bad_url : AppError
bad_url = validation_error "target must be a valid http(s) URL" ("target" ∷ [])

abbrev pub check_url : Kind → Text → Settings → Option Url → Checked
check_url k target s none = err bad_url
check_url k target s (some u) = if is_web_url u then check_http k target u s else err bad_url

abbrev bad_host_port : AppError
bad_host_port = validation_error "target must be host:port for TCP monitors" ("target" ∷ [])

abbrev check_host_port : Text → Settings → Option (Text × Text) → Checked
check_host_port target s none = err bad_host_port
check_host_port target s (some (host, port)) =
    if is_empty host || is_empty port then err bad_host_port else ok (target, s)

unfoldable pub validate_icmp : Text → Settings → Checked
validate_icmp target s =
    if contains target (codes "://") || contains_byte target 47
    then err (validation_error "ICMP target must be a hostname or IP" ("target" ∷ []))
    else ok (target, s)

unfoldable pub dns_settings : Text → Settings → Settings
dns_settings target s = record s {
  dns_query_name = or_text s.dns_query_name target;
  dns_query_type = to_upper (or_text s.dns_query_type (codes "A"));
}

unfoldable pub validate_dns : Text → Settings → Checked
validate_dns target s =
    let s' = dns_settings target s in
    if valid_dns_type s'.dns_query_type
    then ok (target, s')
    else err (validation_error "invalid DNS query type" ("settings.dns_query_type" ∷ []))

-- A pasted URL down to its path: the first prefix that fits is cut off.
unfoldable pub strip_github : List String → Text → Text
strip_github [] repo = repo
strip_github (p ∷ ps) repo =
    let rest = strip_github ps repo in
    if has_prefix (to_lower repo) (codes p) then drop (length (codes p)) repo else rest

abbrev trim_suffix : Text → Text → Text
trim_suffix s suffix = if has_suffix s suffix then take (length s - length suffix) s else s

abbrev pub github_prefixes : List String
github_prefixes =
    "https://github.com/" ∷ "http://github.com/" ∷ "github.com/" ∷ "git@github.com:" ∷ []

unfoldable pub repository_path : Text → Text
repository_path target =
    trim_suffix (trim (λ c. c == 47) (strip_github github_prefixes (trim_space target)))
      (codes ".git")

abbrev bad_repository : AppError
bad_repository = validation_error "target must be a repository in owner/repo form" ("target" ∷ [])

abbrev pub owner_and_name : List Text → Settings → Checked
owner_and_name (owner ∷ name ∷ rest) s =
    if is_empty owner || is_empty name
    then err bad_repository
    else ok
        (owner ++ codes "/" ++ name, record s { github_workflow = trim_space s.github_workflow })
owner_and_name _ s = err bad_repository

unfoldable pub validate_github_actions : Text → Settings → Checked
validate_github_actions target s = owner_and_name (split 47 (repository_path target)) s

module _ (parsers : Parsers) where
  unfoldable pub validate_http : Kind → Text → Settings → Checked
  validate_http k target s =
      check_url k (with_scheme k target) s (parsers.parse_url (with_scheme k target))

  unfoldable pub validate_tcp : Text → Settings → Checked
  validate_tcp target s = check_host_port target s (parsers.split_host_port target)

  unfoldable pub validate_by_kind : Kind → Text → Settings → Checked
  validate_by_kind tcp target s = validate_tcp target s
  validate_by_kind icmp target s = validate_icmp target s
  validate_by_kind dns target s = validate_dns target s
  validate_by_kind github_actions target s = validate_github_actions target s
  validate_by_kind http target s = validate_http http target s
  validate_by_kind https target s = validate_http https target s
  validate_by_kind ssl target s = validate_http ssl target s
  validate_by_kind _ target s = err (validation_error "unsupported monitor type" [])

  abbrev pub validate_target : Kind → Text → Settings → Checked
  validate_target heartbeat target s = ok (heartbeat_target, s)
  validate_target k target s =
      if is_empty (trim_space target)
      then err (validation_error "target is required" ("target" ∷ []))
      else validate_by_kind k (trim_space target) s

  abbrev pub with_sensitivity : Settings → Settings
  with_sensitivity s = record s { alert_sensitivity = or_text s.alert_sensitivity balanced }

  unfoldable pub normalize_and_validate : Kind → Text → Settings → Checked
  normalize_and_validate k target s =
      let s' = with_sensitivity s in
      if not (is_supported k)
      then err (validation_error "monitor type is not available yet" ("type" ∷ []))
      else if not (valid_sensitivity s'.alert_sensitivity)
      then err (validation_error "invalid alert sensitivity" ("settings.alert_sensitivity" ∷ []))
      else validate_target k target s'
