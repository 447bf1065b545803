-- ===== src/ControlPlane/Workers.antt =====
-- The worker's jobs beside the sync: backend/internal/worker/heartbeat.go and statussync.go. A gauge is
-- named by its three labels; a sample's value is told from 1 only, and ids are parsed by the UUID library.
use beaconpulse.World.Rules.{tables-bind}
use beaconpulse.Monitor.Store.Statuses.{apply_status_updates-closed, are_observations, is_closed}
use beaconpulse.ControlPlane.Syncing.{enabled_monitors}
use beaconpulse.ControlPlane.Rules.{is_heartbeat}
use beaconpulse.Monitor.Store.{apply_status_updates}
use beaconpulse.Prelude.{
  ◌∙◌, ap, inr, inl, Bool-cases, ℕ, ◌&&◌, ◌≡◌, refl, Bool, true, Option, none, some, List, [], ◌∷◌,
  ◌==◌, if◌then◌else◌, filter, arith,
}
use beaconpulse.Text.{Text, is_empty}
use beaconpulse.World.{throw, World, Result, ok, err, M, db, pure, ◌>>=◌}
use beaconpulse.Monitor.{Monitor, up, down, StatusUpdate}
use beaconpulse.Monitor.Store

pub record Gauge : Type 0 where
  pub monitor : ℕ
  pub org : ℕ
  pub project : ℕ
  pub value : ℕ

-- The tables, and the gauge vector that the worker exposes.
pub record Exporter : Type 0 where
  pub tables : Store.Tables
  pub gauges : List Gauge

abbrev same_labels : Gauge → Gauge → Bool
same_labels g h = g.monitor == h.monitor && g.org == h.org && g.project == h.project

-- WithLabelValues and Set
unfoldable pub set_gauge : Gauge → List Gauge → List Gauge
set_gauge g [] = g ∷ []
set_gauge g (h ∷ gs) = if same_labels h g then g ∷ gs else h ∷ set_gauge g gs

abbrev gauge_of : Monitor → ℕ → Gauge
gauge_of m at = record { monitor = m.id; org = m.org; project = m.project; value = at }

abbrev set_pinged : Monitor → Option ℕ → List Gauge → List Gauge
set_pinged m none gs = gs
set_pinged m (some at) gs = if is_heartbeat m.kind then set_gauge (gauge_of m at) gs else gs

unfoldable pub set_all : List Monitor → List Gauge → List Gauge
set_all [] gs = gs
set_all (m ∷ ms) gs = set_all ms (set_pinged m m.last_ping_at gs)

abbrev repopulate : List Monitor → M Exporter (Unit {0})
repopulate ms w = (ok tt, record w { tables = record w.tables { gauges = set_all ms [] } })

-- HeartbeatExporter.Run
unfoldable pub export_heartbeats : M Exporter (Unit {0})
export_heartbeats = do ms ← db (λ t. (ok (enabled_monitors t.tables.monitors), t)); repopulate ms

-- A series of probe_success.
pub record Sample : Type 0 where
  pub monitor_id : Text
  pub is_one : Bool
  pub timestamp : ℕ

module _ (parse_id : Text → Option ℕ) where
  abbrev update_of : Sample → Option ℕ → List StatusUpdate → List StatusUpdate
  update_of s none us = us
  update_of s (some id) us =
      record { monitor = id; status = if s.is_one then up else down; checked_at = s.timestamp } ∷ us

  unfoldable pub updates_of : List Sample → List StatusUpdate
  updates_of [] = []
  updates_of (s ∷ ss) =
      let rest = updates_of ss in
      if is_empty s.monitor_id then rest else update_of s (parse_id s.monitor_id) rest

  abbrev apply_samples : List Sample → M Store.Tables (Unit {0})
  apply_samples [] = pure tt
  apply_samples (s ∷ ss) = do n ← apply_status_updates (updates_of (s ∷ ss)); pure tt

  abbrev with_samples : Result (List Sample) → M Store.Tables (Unit {0})
  with_samples (err e) = throw e
  with_samples (ok ss) = apply_samples ss

  -- StatusSync.Run, given what the query for probe_success answers.
  unfoldable pub sync_statuses : Result (List Sample) → M Store.Tables (Unit {0})
  sync_statuses answer = with_samples answer

  update_of-are_observations :
      (s : Sample) (o : Option ℕ) (us : List StatusUpdate)
      → are_observations us ≡ true
      → are_observations (update_of s o us) ≡ true
  update_of-are_observations s none us h = h
  update_of-are_observations s (some id) us h = ground arith

  updates_of-are_observations : (ss : List Sample) → are_observations (updates_of ss) ≡ true
  unfolding updates_of
  updates_of-are_observations [] = refl
  updates_of-are_observations (s ∷ ss) = elim (Bool-cases (is_empty s.monitor_id)) [
    | inl blank ↦ ground (arith, updates_of-are_observations ss)
    | inr named ↦ ground (
      arith,
      update_of-are_observations s (parse_id s.monitor_id) (updates_of ss)
          (updates_of-are_observations ss),
    )
  ]

  -- Whatever Prometheus answers and whatever fails, the rows of monitors that are deleted, disabled or
  -- paused stay as they are.
  pub sync_statuses-closed :
      (answer : Result (List Sample)) (w : World Store.Tables)
      → filter is_closed (sync_statuses answer w).1.tables.monitors
        ≡ filter is_closed w.tables.monitors
  unfolding sync_statuses
  sync_statuses-closed (err e) w = refl
  sync_statuses-closed (ok []) w = refl
  sync_statuses-closed (ok (s ∷ ss)) w =
      let us = updates_of (s ∷ ss) in
      ap (λ t. filter is_closed t.monitors)
        (tables-bind (apply_status_updates us) (λ n. pure tt) w (λ n w'. refl))
      ∙ apply_status_updates-closed us w (updates_of-are_observations (s ∷ ss))
