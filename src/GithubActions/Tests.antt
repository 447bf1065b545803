-- ===== src/GithubActions/Tests.antt =====
-- A failed run on a monitor that is up, with the history write failing.
use beaconpulse.GithubActions.Recovery.{ingest-recovers_once}
use beaconpulse.Monitor.{down}
use beaconpulse.Monitor.Store.{status_tx, apply_all, takes_status, edit_rows}
use beaconpulse.GithubActions.{resolved, nothing}
use beaconpulse.Prelude.{◌≢◌, ◌≡◌, refl, true, false, some, [], ◌∷◌}
use beaconpulse.Text.{Text, codes, text_eq, to_lower, trim_space}
use beaconpulse.World.{World, ok, db}
use beaconpulse.Monitor.{Monitor, github_actions, up}
use beaconpulse.Monitor.Tests.{paused_monitor}
use beaconpulse.Monitor.Store.{
  Tables, is_github_row, github_by_token_hash, record_github_run, apply_status_updates,
}
use beaconpulse.GithubActions.{
  Event, Decision, firing, ingest, for_monitor, act, classify, alert_of, is_other_workflow,
}
use beaconpulse.GithubActions.Alerts.{IsAlert, decided, ingest-IsAlert, ingest-decided}

abbrev hash_of : Text → Text
hash_of t = t

abbrev token : Text
token = codes "bpgh_x"

abbrev watched : Monitor
watched = record paused_monitor {
  kind = github_actions;
  enabled = true;
  last_status = up;
  github_token_hash = token;
}

abbrev broken : World Tables
broken = record {
  tables = record {
    monitors = record { monitor = watched; deleted = false } ∷ [];
    projects = [];
    runs = [];
    syncs = 0;
  };
  faults = false ∷ true ∷ true ∷ [];
  audit = [];
}

abbrev failed_run : Event
failed_run = record {
  status = codes " Failure ";
  repository = codes "o/r";
  workflow = codes "CI";
  run_id = [];
  run_number = [];
  run_attempt = [];
  branch = [];
  sha = [];
  actor = [];
  event_name = [];
  run_url = [];
}

is_known : (github_by_token_hash (hash_of token) broken).0 ≡ ok (some watched)
unfolding github_by_token_hash is_github_row db text_eq
is_known = refl

abbrev page : Decision
page = record { ignored = false; monitor = watched; alert = firing }

pages : (ingest hash_of 9 token failed_run broken).0 ≡ ok page
unfolding ingest for_monitor act classify alert_of is_other_workflow github_by_token_hash
    is_github_row record_github_run apply_status_updates db text_eq to_lower trim_space
pages = refl

ingest-IsAlert_example :
    ((github_by_token_hash (hash_of token) broken).0 ≡ ok (some watched)) × IsAlert failed_run page
ingest-IsAlert_example = ingest-IsAlert hash_of 9 token failed_run broken pages

ingest-decided_example :
    (ingest hash_of 9 token failed_run broken).0 ≡ ok (decided failed_run watched)
ingest-decided_example = ingest-decided hash_of 9 token failed_run broken watched refl is_known

abbrev was_down : Monitor
was_down = record watched { last_status = down }

abbrev down_world : World Tables
down_world = record broken {
  tables = record broken.tables { monitors = record { monitor = was_down; deleted = false } ∷ [] };
  faults = [];
}

abbrev green_run : Event
green_run = record failed_run { status = codes "success" }

abbrev recovery : Decision
recovery = record { ignored = false; monitor = was_down; alert = resolved }

abbrev now_up : Monitor
now_up = record was_down { last_status = up; last_checked_at = some 9 }

abbrev quiet : Decision
quiet = record { ignored = false; monitor = now_up; alert = nothing }

recovers : (ingest hash_of 9 token green_run down_world).0 ≡ ok recovery
unfolding ingest for_monitor act classify alert_of is_other_workflow github_by_token_hash
    is_github_row record_github_run apply_status_updates db text_eq to_lower trim_space
recovers = refl

stays_quiet :
    (ingest hash_of 10 token green_run (ingest hash_of 9 token green_run down_world).1).0 ≡ ok quiet
unfolding ingest for_monitor act classify alert_of is_other_workflow github_by_token_hash
    is_github_row record_github_run apply_status_updates status_tx apply_all takes_status edit_rows
    db text_eq to_lower trim_space
stays_quiet = refl

ingest-recovers_once_example : quiet.alert ≢ resolved
ingest-recovers_once_example =
    ingest-recovers_once hash_of token 9 10 green_run green_run down_world refl recovers refl
      stays_quiet
