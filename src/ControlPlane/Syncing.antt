-- ===== src/ControlPlane/Syncing.antt =====
-- Reconciliation: Syncer.Sync of backend/internal/adapter/controlplane/syncer.go, with ListAllEnabled and
-- EffectivePlans of backend/internal/adapter/postgres/monitor_repo.go. The mutex runs one at a time.
pub mod Projection
use beaconpulse.ControlPlane.Capping.{cap_to_plan}
use beaconpulse.ControlPlane.{GeneratorConfig}
use beaconpulse.ControlPlane.Sorting.{sort_by}
use beaconpulse.Text.{is_empty, Text}
use beaconpulse.Prelude.{
  if◌then◌else◌, ℕ, ◌&&◌, not, Option, none, some, List, map, filter, true, false,
}
use beaconpulse.World.{
  internal_error, World, Result, ok, err, M, db, pure, throw, best_effort, ◌>>◌, ◌>>=◌,
}
use beaconpulse.Plan
use beaconpulse.Plan.{Plan}
use beaconpulse.Ledger
use beaconpulse.Ledger.{owner_email, live_org, status_active, Org, is_active_status}
use beaconpulse.Monitor.{Monitor}
use beaconpulse.Monitor.Store.{Row}
use beaconpulse.ControlPlane
use beaconpulse.ControlPlane.Files.{rules_file, scrape_file, blackbox_config, write_atomic, Tables}
use beaconpulse.ControlPlane.Generator.{generate, Generated, failed, generated}

-- `WHERE enabled = TRUE AND deleted_at IS NULL ORDER BY id`
unfoldable pub enabled_monitors : List Row → List Monitor
enabled_monitors rs =
    sort_by (λ m. m.id) (map (λ r. r.monitor) (filter (λ r. r.monitor.enabled && not r.deleted) rs))

unfoldable pub list_all_enabled : M Tables (List Monitor)
list_all_enabled = db (λ t. (ok (enabled_monitors t.monitors.monitors), t))

abbrev plan_of : Plan.Live → Ledger.Tables → ℕ → Option Org → Option Plan
plan_of live t org none = none
plan_of live t org (some o) =
    some (Plan.resolve live o.plan (status_active o.status) o.credit (owner_email t.users org))

unfoldable pub plans_of : Plan.Live → Ledger.Tables → ℕ → Option Plan
plans_of live t org = plan_of live t org (live_org t org)

unfoldable pub effective_plans : Plan.Live → M Tables (ℕ → Option Plan)
effective_plans live = db (λ t. (ok (plans_of live t.billing), t))

-- Reloader: the URLs where the services are asked to reload, empty where reloads are disabled.
pub record Reloader : Type 0 where
  pub prometheus_reload : Text
  pub blackbox_reload : Text

-- post: a service that answers runs on the files of that moment.
unfoldable pub post : Text → (Tables → Tables) → M Tables (Unit {0})
post url f = if is_empty url then pure tt else db (λ t. (ok tt, f t))

unfoldable pub reload_blackbox : Text → M Tables (Unit {0})
reload_blackbox url =
    post url (λ t. record t { loaded = record t.loaded { modules = t.files.modules } })

unfoldable pub reload_prometheus : Text → M Tables (Unit {0})
reload_prometheus url = post url (λ t. record t {
  loaded = record t.loaded { scrapes = t.files.scrapes; rules = t.files.rules };
})

-- errors.Join
abbrev pub joined : Result (Unit {0}) → Result (Unit {0}) → M Tables (Unit {0})
joined (err e) _ = throw e
joined (ok _) (err e) = throw e
joined (ok _) (ok _) = pure tt

-- Both services are asked, whatever the first answers.
unfoldable pub reload_both : Text → Text → M Tables (Unit {0})
reload_both blackbox prometheus = do
  r ← best_effort (reload_blackbox blackbox)
  r' ← best_effort (reload_prometheus prometheus)
  joined r r'

abbrev pub write_all : Reloader → Generated → M Tables (Unit {0})
write_all rl (failed id) = throw internal_error
write_all rl (generated a) = do
  write_atomic (blackbox_config a.modules)
  write_atomic (scrape_file a.scrapes)
  write_atomic (rules_file a.rules)
  reload_both rl.blackbox_reload rl.prometheus_reload

module _ (show_id : ℕ → Text) (cfg : GeneratorConfig) (live : Plan.Live) (rl : Reloader) where
  unfoldable pub sync : M Tables (Unit {0})
  sync = do
    monitors ← list_all_enabled
    plans ← effective_plans live
    write_all rl (generate show_id cfg (cap_to_plan live plans monitors))
