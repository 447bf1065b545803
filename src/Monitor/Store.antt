-- ===== src/Monitor/Store.antt =====
-- The statements on the tables of monitors, projects and workflow runs:
-- backend/internal/adapter/postgres/{monitor_repo,heartbeat_repo}.go. Header values stand as they are
-- once opened; how they are sealed at rest is another component's. `syncs` counts the requests to
-- reconcile the control plane.
pub mod Statuses
use beaconpulse.Prelude.{
  ltb, leb, ℕ, ◌+◌, Bool, true, false, not, ◌&&◌, ◌||◌, Option, none, some, List, [], ◌∷◌, any,
  find, filter, length, ◌==◌, if◌then◌else◌,
}
use beaconpulse.Text.{has_length, codes, Text, text_eq, is_empty}
use beaconpulse.World.{
  Result, ok, err, M, db, new_error, not_found, internal_error, validation_error, AppError,
}
use beaconpulse.Projects.{Project}
use beaconpulse.Prelude.Int.{ℤ, pos, leb_ℤ}
use beaconpulse.Monitor.{
  Kind, unsupported, heartbeat, Status, paused, unknown, is_paused, Monitor, StatusUpdate,
  GithubRun,
}

pub record Row : Type 0 where
  pub monitor : Monitor
  pub deleted : Bool

pub record Tables : Type 0 where
  pub monitors : List Row
  pub projects : List Project
  pub runs : List GithubRun
  pub syncs : ℕ

-- `id=$1 AND org_id=$2 AND deleted_at IS NULL`
unfoldable pub is_row : ℕ → ℕ → Row → Bool
is_row org id r = r.monitor.id == id && r.monitor.org == org && not r.deleted

abbrev pub monitor_missing : AppError
monitor_missing = new_error not_found "monitor not found"

unfoldable pub edit_rows : (Row → Bool) → (Monitor → Monitor) → List Row → List Row
edit_rows p f [] = []
edit_rows p f (r ∷ rs) = (if p r then record r { monitor = f r.monitor } else r) ∷ edit_rows p f rs

-- The unique indexes on a ping token and on a hash, which are of live rows: no value, no conflict.
abbrev same_token : Option Text → Option Text → Bool
same_token (some a) (some b) = text_eq a b
same_token _ _ = false

abbrev same_hash : Text → Text → Bool
same_hash a b = not (is_empty a) && text_eq a b

unfoldable pub conflicts : Monitor → Row → Bool
conflicts m r =
    r.monitor.id == m.id
    || (not r.deleted
        && (same_token r.monitor.ping_token m.ping_token
            || same_hash r.monitor.github_token_hash m.github_token_hash))

abbrev within_ℤ : ℕ → ℕ → ℤ → Bool
within_ℤ low high n = leb_ℤ (pos low) n && leb_ℤ n (pos high)

-- The types that the constraint lists beside those of the code.
abbrev is_other_type : Text → Bool
is_other_type s = any (text_eq s) (
    codes "domain"
    ∷ codes "api"
    ∷ codes "server"
    ∷ codes "kubernetes"
    ∷ codes "health"
    ∷ codes "grafana"
    ∷ codes "prometheus"
    ∷ codes "gatus"
    ∷ [])

abbrev is_admitted_type : Kind → Bool
is_admitted_type (unsupported s) = is_other_type s
is_admitted_type _ = true

-- The CHECK constraints of the table.
unfoldable pub monitor_checks : Monitor → Bool
monitor_checks m =
    has_length 200 m.name
    && is_admitted_type m.kind
    && has_length 2048 m.target
    && within_ℤ 10 86400 m.interval_seconds
    && within_ℤ 1 300 m.timeout_seconds
    && within_ℤ 0 86400 m.grace_seconds

abbrev project_missing : AppError
project_missing = validation_error "project not found" ("project_id" ∷ [])

unfoldable pub insert_monitor : Monitor → Tables → Result (Unit {0}) × Tables
insert_monitor m t =
    if not (monitor_checks m)
    then (err internal_error, t)
    else if any (conflicts m) t.monitors
    then (err internal_error, t)
    else if not (any (λ p. p.id == m.project) t.projects)
    then (err project_missing, t)
    else (ok tt, record t { monitors = record { monitor = m; deleted = false } ∷ t.monitors })

abbrev row_result : Option Row → Result Monitor
row_result none = err monitor_missing
row_result (some r) = ok r.monitor

unfoldable pub get_by_id : ℕ → ℕ → M Tables Monitor
get_by_id org id = db (λ t. (row_result (find (is_row org id) t.monitors), t))

-- The columns that the update writes.
abbrev pub written : Monitor → Monitor → Monitor
written m old = record old {
  name = m.name;
  target = m.target;
  enabled = m.enabled;
  interval_seconds = m.interval_seconds;
  timeout_seconds = m.timeout_seconds;
  settings = m.settings;
  updated_by = m.updated_by;
  is_public = m.is_public;
  grace_seconds = m.grace_seconds;
  github_token_hash = m.github_token_hash;
  github_token_prefix = m.github_token_prefix;
}

-- An UPDATE of one row, which reports a row that is not there.
unfoldable pub edit_tx : ℕ → ℕ → (Monitor → Monitor) → Tables → Result (Unit {0}) × Tables
edit_tx org id f t =
    if any (is_row org id) t.monitors
    then (ok tt, record t { monitors = edit_rows (is_row org id) f t.monitors })
    else (err monitor_missing, t)

unfoldable pub update_tx : Monitor → Tables → Result (Unit {0}) × Tables
update_tx m t =
    if any (λ r. is_row m.org m.id r && not (monitor_checks (written m r.monitor))) t.monitors
    then (err internal_error, t)
    else if any (is_row m.org m.id) t.monitors
        && any
            (λ r.
              not (r.monitor.id == m.id)
              && not r.deleted
              && same_hash r.monitor.github_token_hash m.github_token_hash)
            t.monitors
    then (err internal_error, t)
    else edit_tx m.org m.id (written m) t

unfoldable pub update_monitor : Monitor → M Tables (Unit {0})
update_monitor m = db (update_tx m)

abbrev pub enabled_status : Bool → Status
enabled_status true = unknown
enabled_status false = paused

abbrev pub switched : Bool → ℕ → Monitor → Monitor
switched enabled by m = record m {
  enabled = enabled;
  last_status = enabled_status enabled;
  updated_by = some by;
}

unfoldable pub set_enabled : ℕ → ℕ → Bool → ℕ → M Tables (Unit {0})
set_enabled org id enabled by = db (edit_tx org id (switched enabled by))

unfoldable pub delete_rows : ℕ → ℕ → ℕ → List Row → List Row
delete_rows org id by [] = []
delete_rows org id by (r ∷ rs) =
    (if is_row org id r
      then record r { monitor = record r.monitor { updated_by = some by }; deleted = true }
      else r)
    ∷ delete_rows org id by rs

unfoldable pub soft_delete_tx : ℕ → ℕ → ℕ → Tables → Result (Unit {0}) × Tables
soft_delete_tx org id by t =
    if any (is_row org id) t.monitors
    then (ok tt, record t { monitors = delete_rows org id by t.monitors })
    else (err monitor_missing, t)

unfoldable pub live_count : ℕ → Tables → ℕ
live_count org t = length (filter (λ r. r.monitor.org == org && not r.deleted) t.monitors)

unfoldable pub count_by_org : ℕ → M Tables ℕ
count_by_org org = db (λ t. (ok (live_count org t), t))

unfoldable pub is_project : ℕ → ℕ → Tables → Bool
is_project org id t = any (λ p. p.id == id && p.org == org && not p.deleted) t.projects

unfoldable pub project_exists : ℕ → ℕ → M Tables Bool
project_exists org id = db (λ t. (ok (is_project org id t), t))

-- `id = $1 AND deleted_at IS NULL AND enabled = TRUE AND last_status <> 'paused'`
unfoldable pub takes_status : ℕ → Row → Bool
takes_status id r =
    r.monitor.id == id
    && not r.deleted
    && r.monitor.enabled
    && not (is_paused r.monitor.last_status)

abbrev pub observed : StatusUpdate → Monitor → Monitor
observed u m = record m { last_status = u.status; last_checked_at = some u.checked_at }

-- The updates of one transaction, and how many rows they touched.
unfoldable pub apply_all : List StatusUpdate → List Row → ℕ × List Row
apply_all [] rs = (0, rs)
apply_all (u ∷ us) rs =
    let (n, rs') = apply_all us (edit_rows (takes_status u.monitor) (observed u) rs) in
    (length (filter (takes_status u.monitor) rs) + n, rs')

unfoldable pub status_tx : List StatusUpdate → Tables → Result ℕ × Tables
status_tx us t = let (n, rs) = apply_all us t.monitors in (ok n, record t { monitors = rs })

abbrev status_updates : List StatusUpdate → M Tables ℕ
status_updates [] w = (ok 0, w)
status_updates (u ∷ us) w = db (status_tx (u ∷ us)) w

unfoldable pub apply_status_updates : List StatusUpdate → M Tables ℕ
apply_status_updates us = status_updates us

unfoldable pub is_github_row : Text → Row → Bool
is_github_row hash r = same_hash r.monitor.github_token_hash hash && not r.deleted

abbrev monitor_of : Option Row → Option Monitor
monitor_of none = none
monitor_of (some r) = some r.monitor

unfoldable pub github_by_token_hash : Text → M Tables (Option Monitor)
github_by_token_hash hash = db (λ t. (ok (monitor_of (find (is_github_row hash) t.monitors)), t))

unfoldable pub record_github_run : GithubRun → M Tables (Unit {0})
record_github_run run = db (λ t. (ok tt, record t { runs = run ∷ t.runs }))

abbrev is_heartbeat : Kind → Bool
is_heartbeat heartbeat = true
is_heartbeat _ = false

-- `ping_token = $1 AND type = 'heartbeat' AND deleted_at IS NULL`
unfoldable pub takes_ping : Text → Row → Bool
takes_ping token r =
    same_token r.monitor.ping_token (some token) && is_heartbeat r.monitor.kind && not r.deleted

abbrev pub pinged : ℕ → Monitor → Monitor
pinged at m = record m { last_ping_at = some at }

-- HeartbeatRepository.RecordPing
unfoldable pub record_ping : Text → ℕ → M Tables Bool
record_ping token at = db (λ t. (
  ok (any (takes_ping token) t.monitors),
  record t { monitors = edit_rows (takes_ping token) (pinged at) t.monitors },
))

unfoldable pub request_sync : M Tables (Unit {0})
request_sync = db (λ t. (ok tt, record t { syncs = t.syncs + 1 }))
