-- ===== src/Monitor.antt =====
-- Monitored resources: backend/internal/domain/monitor/monitor.go and repository.go. A map from names
-- to values is an association list; ids are numbers, times are seconds.
pub mod Headers
pub mod Validation
pub mod Store
pub mod Service
pub mod Tests
use beaconpulse.Prelude.{◌||◌, ℕ, Bool, true, false, Option, List, [], ◌∷◌}
use beaconpulse.Prelude.Int.{ℤ}
use beaconpulse.Text.{Text, codes, text_eq}
use beaconpulse.Role.{Role}

-- Type; `unsupported` is a string that is not in SupportedTypes.
pub data Kind : Type 0 where
  http https ssl tcp icmp dns heartbeat github_actions : Kind
  unsupported : Text → Kind

abbrev pub is_supported : Kind → Bool
is_supported (unsupported _) = false
is_supported _ = true

pub data Status : Type 0 where
  up down degraded unknown paused : Status

abbrev pub is_paused : Status → Bool
is_paused paused = true
is_paused _ = false

abbrev pub is_down : Status → Bool
is_down down = true
is_down _ = false

-- HeartbeatTarget
abbrev pub heartbeat_target : Text
heartbeat_target = codes "(heartbeat)"

abbrev pub balanced : Text
balanced = codes "balanced"

unfoldable pub valid_sensitivity : Text → Bool
valid_sensitivity s =
    text_eq s (codes "immediate") || text_eq s balanced || text_eq s (codes "relaxed")

abbrev pub Headers : Type 0
Headers = List (Text × Text)

pub record Settings : Type 0 where
  pub method : Text
  pub valid_status_codes : List ℤ
  pub body_keyword : Text
  pub body_not_keyword : Text
  pub follow_redirects : Bool
  pub headers : Headers
  pub skip_tls_verify : Bool
  pub body : Text
  pub ssl_expiry_warning_days : ℤ
  pub response_time_warning_ms : ℤ
  pub alert_sensitivity : Text
  pub dns_query_name : Text
  pub dns_query_type : Text
  pub dns_expected_ips : List Text
  pub github_workflow : Text
  pub github_notify_on_success : Bool

-- HeaderMask
abbrev pub header_mask : Text
header_mask = codes "********"

abbrev pub masked : Headers → Headers
masked [] = []
masked ((name, v) ∷ hs) = (name, header_mask) ∷ masked hs

-- Settings.Redacted
unfoldable pub redacted : Settings → Settings
redacted s = record s { headers = masked s.headers }

-- The token that a creation or a rotation reveals is returned beside the monitor.
pub record Monitor : Type 0 where
  pub id : ℕ
  pub org : ℕ
  pub project : ℕ
  pub name : Text
  pub kind : Kind
  pub target : Text
  pub enabled : Bool
  pub ping_token : Option Text
  pub last_ping_at : Option ℕ
  pub grace_seconds : ℤ
  pub is_public : Bool
  pub interval_seconds : ℤ
  pub timeout_seconds : ℤ
  pub settings : Settings
  pub github_token_hash : Text
  pub github_token_prefix : Text
  pub last_status : Status
  pub last_checked_at : Option ℕ
  pub created_by : Option ℕ
  pub updated_by : Option ℕ
  pub created_at : ℕ

pub record Actor : Type 0 where
  pub user : ℕ
  pub org : ℕ
  pub role : Role

pub record StatusUpdate : Type 0 where
  pub monitor : ℕ
  pub status : Status
  pub checked_at : ℕ

pub record GithubRun : Type 0 where
  pub monitor : ℕ
  pub status : Status
  pub conclusion : Text
  pub workflow : Text
  pub run_number : Text
  pub run_attempt : Text
  pub branch : Text
  pub sha : Text
  pub actor : Text
  pub event_name : Text
  pub run_url : Text
  pub created_at : ℕ
