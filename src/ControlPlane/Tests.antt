-- ===== src/ControlPlane/Tests.antt =====
-- The control plane at a concrete set of monitors.
use beaconpulse.Monitor.Store.Statuses.{is_closed}
use beaconpulse.ControlPlane.Workers.{
  sync_statuses-closed, sync_statuses, set_gauge, Sample, set_all,
}
use beaconpulse.ControlPlane.Generator.Jobs.{generate-jobs, jobs_of, jobs}
use beaconpulse.ControlPlane.Syncing.{Reloader, sync}
use beaconpulse.Ledger.Tests.{two_orgs}
use beaconpulse.ControlPlane.Generator.Tenancy.{generate-is_attributed, is_attributed}
use beaconpulse.ControlPlane.Rules.{build_rules}
use beaconpulse.ControlPlane.Capping.Oldest.{cap_to_plan-oldest, distinct_ids}
use beaconpulse.Text.Decimal.{itoa}
use beaconpulse.Text.{codes}
use beaconpulse.ControlPlane.Syncing.Projection.{sync-IsProjected, projection, IsProjected}
use beaconpulse.ControlPlane.Files.{Files, Tables}
use beaconpulse.ControlPlane.Generator.{add_monitor, generated, add_all, generate}
use beaconpulse.ControlPlane.Capping.{limit_of, cap_to_plan, by_org, has_id, sort_by_age}
use beaconpulse.Monitor.Tests.{start, paused_monitor}
use beaconpulse.ControlPlane.{Artifacts, GeneratorConfig}
use beaconpulse.Prelude.{filter, take, all, ℕ, ◌≡◌, refl, true, false, some, none, List, [], ◌∷◌}
use beaconpulse.World.{ok, World}
use beaconpulse.Plan.{free, initial}
use beaconpulse.Monitor.{Monitor, heartbeat}

-- Three monitors of one organization, the oldest a heartbeat.
abbrev monitor_of : ℕ → ℕ → Monitor
monitor_of id at = record paused_monitor { id = id; enabled = true; created_at = at }

abbrev three : List Monitor
three = monitor_of 11 9 ∷ monitor_of 12 7 ∷ record (monitor_of 13 3) { kind = heartbeat } ∷ []

three_distinct : distinct_ids three ≡ true
unfolding has_id
three_distinct = refl

cap_to_plan-oldest_example :
    sort_by_age (by_org 7 (cap_to_plan initial (λ org. some free) three))
    ≡ take (limit_of initial (λ org. some free) 7) (sort_by_age (by_org 7 three))
cap_to_plan-oldest_example = cap_to_plan-oldest initial (λ org. some free) three 7 three_distinct

abbrev config : GeneratorConfig
config = record { blackbox_addr = codes "blackbox:9115"; dns_resolver = codes "1.1.1.1:53" }

generate-jobs_example :
    (a : Artifacts) × ((generate itoa config three ≡ generated a)
      × (jobs itoa config a ≡ jobs_of itoa config three))
generate-jobs_example = generate-jobs itoa config three refl

abbrev one_heartbeat : List Monitor
one_heartbeat = record (monitor_of 13 3) { kind = heartbeat } ∷ []

abbrev heartbeat_documents : Artifacts
heartbeat_documents = record {
  modules = [];
  scrapes = [];
  rules = build_rules itoa (record (monitor_of 13 3) { kind = heartbeat });
}

documented : generate itoa config one_heartbeat ≡ generated heartbeat_documents
unfolding generate add_all add_monitor
documented = refl

generate-is_attributed_example :
    all (is_attributed itoa config one_heartbeat) heartbeat_documents.rules ≡ true
generate-is_attributed_example =
    generate-is_attributed itoa config one_heartbeat heartbeat_documents documented

abbrev no_files : Files
no_files = record { modules = none; scrapes = none; rules = none }

-- The reads and two files succeed, then a step of the third write fails.
abbrev deployment : World Tables
deployment = record {
  tables = record {
    monitors = start.tables;
    billing = two_orgs;
    files = no_files;
    temp = none;
    loaded = no_files;
  };
  faults = false ∷ false ∷ false ∷ true ∷ [];
  audit = [];
}

abbrev reloader : Reloader
reloader = record {
  prometheus_reload = codes "http://prometheus:9090/-/reload";
  blackbox_reload = codes "http://blackbox:9115/-/reload";
}

sync-IsProjected_example :
    IsProjected
      (projection itoa config initial deployment.tables)
      no_files
      (sync itoa config initial reloader deployment)
sync-IsProjected_example = sync-IsProjected reloader refl refl itoa config initial deployment

-- One monitor is paused; the sample says that its probe succeeded.
abbrev samples : List Sample
samples = record { monitor_id = codes "11"; is_one = true; timestamp = 90 } ∷ []

sync_statuses-closed_example :
    filter is_closed (sync_statuses (λ t. some 11) (ok samples) start).1.tables.monitors
    ≡ filter is_closed start.tables.monitors
sync_statuses-closed_example = sync_statuses-closed (λ t. some 11) (ok samples) start

pinged_gauge :
    set_all (record (monitor_of 13 3) { kind = heartbeat; last_ping_at = some 80 } ∷ three) []
    ≡ record { monitor = 13; org = 7; project = 3; value = 80 } ∷ []
unfolding set_all set_gauge
pinged_gauge = refl
