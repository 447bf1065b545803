-- ===== src/GithubActions.antt =====
-- Workflow runs reported by the notify action: backend/internal/domain/githubactions/githubactions.go.
-- The hash is a parameter.
pub mod Alerts
pub mod Recovery
mod Tests
use beaconpulse.Prelude.{
  ◌||◌, ℕ, Bool, true, false, not, ◌&&◌, Option, none, some, [], ◌∷◌, if◌then◌else◌,
}
use beaconpulse.Text.{Text, is_empty, equal_fold, to_lower, trim_space}
use beaconpulse.World.{
  AppError, M, ◌>>=◌, ◌>>◌, and_then, pure, throw, guard, best_effort, new_error, not_found,
}
use beaconpulse.Monitor.{Monitor, Status, up, down, unknown, is_down, GithubRun}
use beaconpulse.Monitor.Validation.{is_one_of}
use beaconpulse.Monitor.Store.{
  Tables, github_by_token_hash, record_github_run, apply_status_updates,
}

pub record Event : Type 0 where
  pub status : Text
  pub repository : Text
  pub workflow : Text
  pub run_id : Text
  pub run_number : Text
  pub run_attempt : Text
  pub branch : Text
  pub sha : Text
  pub actor : Text
  pub event_name : Text
  pub run_url : Text

pub data AlertKind : Type 0 where
  nothing firing resolved succeeded : AlertKind

-- Result
pub record Decision : Type 0 where
  pub ignored : Bool
  pub monitor : Monitor
  pub alert : AlertKind

abbrev failures_and_successes : Bool → Bool → Status × Bool
failures_and_successes true _ = (down, true)
failures_and_successes false true = (up, true)
failures_and_successes false false = (unknown, false)

abbrev pub is_failure : Text → Bool
is_failure s =
    is_one_of ("failure" ∷ "failed" ∷ "timed_out" ∷ "startup_failure" ∷ "action_required" ∷ []) s

abbrev pub is_success : Text → Bool
is_success s = is_one_of ("success" ∷ "succeeded" ∷ []) s

unfoldable pub classify : Text → Status × Bool
classify status =
    let word = to_lower (trim_space status) in
    failures_and_successes (is_failure word) (is_success word)

abbrev pub unknown_token : AppError
unknown_token = new_error not_found "unknown ingest token"

abbrev pub ignore : Monitor → Decision
ignore m = record { ignored = true; monitor = m; alert = nothing }

-- What a run that counts announces.
unfoldable pub alert_of : Monitor → Status → AlertKind
alert_of m down = firing
alert_of m up =
    if is_down m.last_status
    then resolved
    else if m.settings.github_notify_on_success
    then succeeded
    else nothing
alert_of m _ = nothing

unfoldable pub is_other_workflow : Monitor → Event → Bool
is_other_workflow m ev =
    not (is_empty m.settings.github_workflow)
    && not (is_empty ev.workflow)
    && not (equal_fold m.settings.github_workflow ev.workflow)

unfoldable pub run_of : ℕ → Monitor → Event → GithubRun
run_of now m ev = record {
  monitor = m.id;
  status = (classify ev.status).0;
  conclusion = to_lower (trim_space ev.status);
  workflow = ev.workflow;
  run_number = ev.run_number;
  run_attempt = ev.run_attempt;
  branch = ev.branch;
  sha = ev.sha;
  actor = ev.actor;
  event_name = ev.event_name;
  run_url = ev.run_url;
  created_at = now;
}

-- Ingest from the point where the monitor is known and the run is its own.
unfoldable pub act : ℕ → Monitor → Event → M Tables Decision
act now m ev = if not m.enabled || not (classify ev.status).1 then pure (ignore m) else (do
  updated ← best_effort (
      apply_status_updates
        (record { monitor = m.id; status = (classify ev.status).0; checked_at = now } ∷ []))
  pure (record { ignored = false; monitor = m; alert = alert_of m (classify ev.status).0 }))

unfoldable pub for_monitor : ℕ → Event → Option Monitor → M Tables Decision
for_monitor now ev none = throw unknown_token
for_monitor now ev (some m) =
    if is_other_workflow m ev
    then pure (ignore m)
    else (do recorded ← best_effort (record_github_run (run_of now m ev)); act now m ev)

unfoldable pub ingest : (Text → Text) → ℕ → Text → Event → M Tables Decision
ingest hash_of now token ev = do
  guard (not (is_empty token)) unknown_token
  found ← github_by_token_hash (hash_of token)
  for_monitor now ev found
