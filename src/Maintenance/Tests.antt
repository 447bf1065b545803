-- ===== src/Maintenance/Tests.antt =====
-- Windows opened, changed and closed.
use beaconpulse.Prelude.{List, ◌≡◌, refl, true, false, [], ◌∷◌}
use beaconpulse.Text.{characters, codes}
use beaconpulse.World.{World, ok, db, record_audit}
use beaconpulse.Role.{member}
use beaconpulse.Maintenance.{
  Actor, Tables, by_project, active_for_monitor, get_by_id, soft_delete_tx, dedupe_ids,
  satisfies_checks, covers, is_live_monitor, validate, invalid_fields, insert_window,
}
use beaconpulse.Maintenance.Service.{CreateInput, create, delete, opened}
use beaconpulse.Maintenance.Windows.{IsCanonical}
use beaconpulse.Maintenance.Histories.{
  Call, opening, closing, serve_all, serve_all-IsCanonical, serve_all-other,
}

abbrev writer : Actor
writer = record { user = 2; org = 7; role = member }

-- The ids repeat, and one is nil.
abbrev deploy : CreateInput
deploy = record {
  title = codes "deploy";
  description = [];
  starts_at = 100;
  ends_at = 200;
  scope = by_project;
  scope_ids = 3 ∷ 0 ∷ 3 ∷ [];
}

abbrev blank : World Tables
blank = record {
  tables = record {
    windows = [];
    monitors = record { id = 11; org = 7; project = 3; deleted = false } ∷ [];
  };
  faults = [];
  audit = [];
}

abbrev after_deploy : World Tables
after_deploy = (create 5 50 writer deploy blank).1

suppressed : active_for_monitor 7 11 150 after_deploy.tables ≡ true
unfolding characters create opened dedupe_ids validate invalid_fields insert_window satisfies_checks
    db record_audit active_for_monitor covers is_live_monitor
suppressed = refl

over : active_for_monitor 7 11 200 after_deploy.tables ≡ false
unfolding characters create opened dedupe_ids validate invalid_fields insert_window satisfies_checks
    db record_audit active_for_monitor covers is_live_monitor
over = refl

abbrev calls : List Call
calls = opening 5 50 writer deploy ∷ opening 6 60 writer deploy ∷ closing 70 writer 5 ∷ []

serve_all-IsCanonical_example : IsCanonical (serve_all calls blank).tables
serve_all-IsCanonical_example = serve_all-IsCanonical calls blank refl

serve_all-other_example :
    active_for_monitor 8 11 150 (serve_all calls blank).tables
    ≡ active_for_monitor 8 11 150 blank.tables
serve_all-other_example = serve_all-other 8 11 150 calls blank refl

deleted : (delete 70 writer 5 after_deploy).0 ≡ ok tt
unfolding characters create opened dedupe_ids validate invalid_fields insert_window satisfies_checks
    db record_audit delete get_by_id soft_delete_tx
deleted = refl
