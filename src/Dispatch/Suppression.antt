-- ===== src/Dispatch/Suppression.antt =====
-- The audit trail of alerts that a maintenance window covers: DispatchAlerts and recordSuppressed in
-- backend/internal/domain/notification/dispatcher.go.
use beaconpulse.Prelude.{◌≡◌, Bool, List, [], ◌∷◌, if◌then◌else◌, ◌==◌, ◌&&◌, not, filter}
use beaconpulse.Text.{codes, text_eq}
use beaconpulse.World.{ok, World, Entry, M}
use beaconpulse.Dispatch.{Dispatcher, AlertEvent, Tables, alert_entry, id_or_zero, is_suppressed}

-- An entry about an alert that was withheld.
unfoldable pub is_withheld : Entry → Bool
is_withheld e = text_eq (codes e.action) (codes "alert.suppressed_by_maintenance")

-- The entries about alerts that were withheld.
abbrev pub trail : List Entry → List Entry
trail log = filter is_withheld log

-- While the database answers, the call returns, with a log that has the same alerts withheld.
unfoldable IsQuiet : {A : Type 0} → M Tables A → Type 0
IsQuiet {A = A} m =
    (w : World Tables)
    → w.faults ≡ []
    → (a : A) × (((m w).0 ≡ ok a) × (((m w).1.faults ≡ []) × (trail (m w).1.audit ≡ trail w.audit)))

module _ (d : Dispatcher) where
  abbrev withheld_entry : AlertEvent → Entry
  withheld_entry ev =
      alert_entry "alert.suppressed_by_maintenance" ev.org (id_or_zero d (d.parse_id ev.monitor_id))

  -- The log with an entry for each covered event of an organization, the latest first.
  abbrev pub withheld : List AlertEvent → List Entry → List Entry
  withheld [] log = log
  withheld (ev ∷ evs) log =
      withheld evs
        (if not (ev.org == 0) && is_suppressed d ev then withheld_entry ev ∷ log else log)
