-- ===== src/Monitor/Tests.antt =====
-- Monitors created, updated, paused and observed, and reported runs, at concrete inputs.
use beaconpulse.Prelude.{◌+◌, ◌≡◌, refl, true, false, if◌then◌else◌, none, some, [], ◌∷◌, find}
use beaconpulse.Prelude.Int.{pos}
use beaconpulse.Text.{characters, codes, text_eq, trim_space, contains, contains_byte, has_prefix}
use beaconpulse.World.{World, ok, db, record_audit}
use beaconpulse.Role
use beaconpulse.Role.{Role, member}
use beaconpulse.Plan
use beaconpulse.Plan.{Plan, free, initial}
use beaconpulse.Projects.{production}
use beaconpulse.Monitor.{
  Monitor, Actor, icmp, Settings, paused, unknown, redacted, valid_sensitivity,
}
use beaconpulse.Monitor.Headers.{
  are_distinct, keep_masked_headers, keep_all, keep_masked_headers-redacted,
}
use beaconpulse.Monitor.Validation.{normalize_and_validate, validate_by_kind, validate_icmp}
use beaconpulse.Monitor.Store.{
  monitor_checks, Tables, Row, is_row, edit_rows, conflicts, insert_monitor, get_by_id, edit_tx,
  update_tx, update_monitor, set_enabled, live_count, count_by_org, is_project, project_exists,
  request_sync, takes_status,
}
use beaconpulse.Monitor.Service.{
  Services, CreateInput, UpdateInput, blocked, reachable, create, create_permitted, check_new,
  store_new, build, mint, announce, assert_project, org_limits, vet_target, or_default,
  validate_schedule, enforce_interval_floor, host_of, update, update_permitted, check_changes,
  check_update, revalidated, scheduled, published, switch, switch_permitted,
}
use beaconpulse.Monitor.Service.Quota.{IsAdmitted, create-IsAdmitted}
use beaconpulse.Monitor.Service.Pausing.{update-paused}

abbrev pub plain : Settings
plain = record {
  method = [];
  valid_status_codes = [];
  body_keyword = [];
  body_not_keyword = [];
  follow_redirects = true;
  headers = (codes "Authorization", codes "secret") ∷ (codes "Accept", codes "*/*") ∷ [];
  skip_tls_verify = false;
  body = [];
  ssl_expiry_warning_days = pos 0;
  response_time_warning_ms = pos 0;
  alert_sensitivity = [];
  dns_query_name = [];
  dns_query_type = [];
  dns_expected_ips = [];
  github_workflow = [];
  github_notify_on_success = false;
}

distinct_names : are_distinct plain.headers ≡ true
unfolding text_eq
distinct_names = refl

keep_masked_headers-redacted_example :
    keep_masked_headers (redacted plain).headers plain.headers ≡ ok plain.headers
keep_masked_headers-redacted_example = keep_masked_headers-redacted plain distinct_names

abbrev pub paused_monitor : Monitor
paused_monitor = record {
  id = 11;
  org = 7;
  project = 3;
  name = codes "db";
  kind = icmp;
  target = codes "db.example.com";
  enabled = false;
  ping_token = none;
  last_ping_at = none;
  grace_seconds = pos 0;
  is_public = false;
  interval_seconds = pos 60;
  timeout_seconds = pos 10;
  settings = record plain { headers = []; alert_sensitivity = codes "balanced" };
  github_token_hash = [];
  github_token_prefix = [];
  last_status = paused;
  last_checked_at = none;
  created_by = some 2;
  updated_by = some 2;
  created_at = 5;
}

abbrev paused_row : Row
paused_row = record { monitor = paused_monitor; deleted = false }

abbrev pub start : World Tables
start = record {
  tables = record {
    monitors = paused_row ∷ [];
    projects =
        record {
          id = 3;
          org = 7;
          name = codes "p";
          slug = codes "p";
          description = [];
          environment = production;
          is_active = true;
          deleted = false;
        }
        ∷ [];
    runs = [];
    syncs = 0;
  };
  faults = [];
  audit = [];
}

abbrev writer : Actor
writer = record { user = 2; org = 7; role = member }

-- A deployment where every host that names localhost is blocked.
abbrev services : Services
services = record {
  live = initial;
  plan_of = λ org. ok free;
  parsers = record { parse_url = λ t. none; split_host_port = λ t. none };
  guard = some (λ host. if text_eq host (codes "localhost") then blocked else reachable);
  hash_of = λ t. t;
}

abbrev resumed : Monitor
resumed = record paused_monitor { enabled = true; last_status = unknown }

switched_on : (switch writer 11 true start).0 ≡ ok resumed
unfolding switch switch_permitted get_by_id set_enabled edit_tx edit_rows is_row announce
    request_sync db record_audit
switched_on = refl

-- The same wish, as an update.
abbrev enabling : UpdateInput
enabling = record {
  name = none;
  target = none;
  enabled = some true;
  is_public = none;
  interval_seconds = none;
  timeout_seconds = none;
  settings = none;
}

updated :
    (update services writer 11 enabling start).0 ≡ ok (record paused_monitor { enabled = true })
unfolding update update_permitted check_changes check_update revalidated scheduled published
    validate_schedule get_by_id update_monitor update_tx monitor_checks characters edit_tx edit_rows
    is_row announce request_sync db record_audit
updated = refl

found : find (is_row 7 11) (paused_row ∷ []) ≡ some paused_row
unfolding is_row
found = refl

update-paused_example :
    (r' : Row) × (find (is_row 7 11) (update services writer 11 enabling start).1.tables.monitors
      ≡ some r')
    × (r'.monitor.enabled ≡ true)
    × (takes_status 11 r' ≡ false)
update-paused_example =
    update-paused services writer 11 enabling start paused_row found refl refl updated

abbrev wish : CreateInput
wish = record {
  project = 3;
  name = codes " web ";
  kind = icmp;
  target = codes "web.example.com";
  enabled = none;
  is_public = none;
  interval_seconds = pos 300;
  timeout_seconds = pos 0;
  settings = record plain { headers = [] };
  grace_seconds = pos 0;
}

abbrev created : Monitor
created = record paused_monitor {
  id = 12;
  name = codes "web";
  target = codes "web.example.com";
  enabled = true;
  interval_seconds = pos 300;
  last_status = unknown;
  created_at = 9;
}

creation : (create services none 12 9 writer wish start).0 ≡ ok (created, none)
unfolding create create_permitted check_new assert_project org_limits vet_target or_default
    validate_schedule enforce_interval_floor keep_masked_headers keep_all normalize_and_validate
    validate_by_kind validate_icmp mint build store_new announce insert_monitor monitor_checks
    characters conflicts count_by_org live_count project_exists is_project request_sync db
    record_audit host_of trim_space contains contains_byte text_eq has_prefix valid_sensitivity
    Plan.limits_for initial Plan.default_config
creation = refl

create-IsAdmitted_example :
    (Role.can_write member ≡ true)
    × (((p : Plan) × IsAdmitted services writer wish start.tables p)
        × (live_count 7 (create services none 12 9 writer wish start).1.tables
            ≡ live_count 7 start.tables + 1))
create-IsAdmitted_example = create-IsAdmitted services none 12 9 writer wish start creation
