-- ===== src/Monitor/Service/Inputs.antt =====
-- The inputs of the use cases, their defaults and their bounds: backend/internal/domain/monitor/service.go.
use beaconpulse.Prelude.{
  ℕ, Bool, true, false, not, ◌||◌, Option, none, some, [], ◌∷◌, if◌then◌else◌,
}
use beaconpulse.Prelude.Int.{ℤ, pos, ltb_ℤ, leb_ℤ, eqb_ℤ}
use beaconpulse.Text.{Text, is_empty, trim_space}
use beaconpulse.World.{AppError, Result, ok, err, quota_exceeded, new_error, validation_error}
use beaconpulse.Plan.{Plan, Live}
use beaconpulse.Monitor.{Kind, github_actions, Settings, Headers, Monitor}
use beaconpulse.Monitor.Validation.{Parsers, Url}

-- What the address guard says of a host: `unresolved` stands for every error that is not a refusal.
pub data Vetted : Type 0 where
  reachable blocked unresolved : Vetted

-- The collaborators; `guard` is none in a deployment for one tenant.
pub record Services : Type 0 where
  pub live : Live
  pub plan_of : ℕ → Result Plan
  pub parsers : Parsers
  pub guard : Option (Text → Vetted)
  pub hash_of : Text → Text

abbrev pub default_interval : ℤ
default_interval = pos 60

abbrev pub default_timeout : ℤ
default_timeout = pos 10

pub record CreateInput : Type 0 where
  pub project : ℕ
  pub name : Text
  pub kind : Kind
  pub target : Text
  pub enabled : Option Bool
  pub is_public : Option Bool
  pub interval_seconds : ℤ
  pub timeout_seconds : ℤ
  pub settings : Settings
  pub grace_seconds : ℤ

pub record UpdateInput : Type 0 where
  pub name : Option Text
  pub target : Option Text
  pub enabled : Option Bool
  pub is_public : Option Bool
  pub interval_seconds : Option ℤ
  pub timeout_seconds : Option ℤ
  pub settings : Option Settings

unfoldable pub or_default : ℤ → ℤ → ℤ
or_default v d = if eqb_ℤ v (pos 0) then d else v

abbrev pub or_bool : Option Bool → Bool → Bool
or_bool none d = d
or_bool (some b) d = b

abbrev or_int : Option ℤ → ℤ → ℤ
or_int none d = d
or_int (some v) d = v

abbrev pub min_grace : ℤ
min_grace = pos 30

-- graceOrDefault
unfoldable pub grace_or_default : ℤ → ℤ → ℤ
grace_or_default requested interval =
    let g = if leb_ℤ requested (pos 0) then interval else requested in
    if ltb_ℤ g min_grace then min_grace else g

abbrev pub grace_of : Option Text → ℤ → ℤ → ℤ
grace_of none requested interval = pos 0
grace_of (some token) requested interval = grace_or_default requested interval

abbrev pub stamp_of : Option Text → ℕ → Option ℕ
stamp_of none now = none
stamp_of (some token) now = some now

unfoldable pub enforce_interval_floor : ℤ → ℕ → Option AppError
enforce_interval_floor interval floor =
    if ltb_ℤ interval (pos floor)
    then some (
        new_error quota_exceeded
          "your plan's minimum check interval is %ds; choose a slower interval.")
    else none

unfoldable pub validate_schedule : ℤ → ℤ → Option AppError
validate_schedule interval timeout =
    if ltb_ℤ interval (pos 10) || ltb_ℤ (pos 86400) interval
    then some (validation_error "interval out of range" ("interval_seconds" ∷ []))
    else if ltb_ℤ timeout (pos 1) || ltb_ℤ (pos 300) timeout
    then some (validation_error "timeout out of range" ("timeout_seconds" ∷ []))
    else if ltb_ℤ interval timeout
    then some (validation_error "timeout must not exceed interval" ("timeout_seconds" ∷ []))
    else none

abbrev url_host : Option Url → Text → Text
url_host none t = t
url_host (some u) t = if is_empty u.host then t else u.hostname

abbrev has_host : Option Url → Bool
has_host none = false
has_host (some u) = not (is_empty u.host)

abbrev split_host : Option (Text × Text) → Text → Text
split_host none t = t
split_host (some (h, port)) t = h

-- hostOf
unfoldable pub host_of : Parsers → Text → Text
host_of parsers target =
    let t = trim_space target in
    let u = parsers.parse_url t in
    if has_host u then url_host u t else split_host (parsers.split_host_port t) t

abbrev pub is_github : Kind → Bool
is_github github_actions = true
is_github _ = false

abbrev new_name : Option Text → Text → Text
new_name none old = old
new_name (some name) old = trim_space name

-- The name and the schedule of an update over what is stored.
unfoldable pub scheduled : UpdateInput → Monitor → Monitor
scheduled input m = record m {
  name = new_name input.name m.name;
  interval_seconds = or_int input.interval_seconds m.interval_seconds;
  timeout_seconds = or_int input.timeout_seconds m.timeout_seconds;
}

unfoldable pub published : UpdateInput → Monitor → Monitor
published input m = record m {
  enabled = or_bool input.enabled m.enabled;
  is_public = or_bool input.is_public m.is_public;
}

abbrev pub with_headers : Settings → Result Headers → Result Settings
with_headers s (err e) = err e
with_headers s (ok hs) = ok (record s { headers = hs })
