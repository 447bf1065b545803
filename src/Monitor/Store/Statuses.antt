-- ===== src/Monitor/Store/Statuses.antt =====
-- What an observed status may overwrite.
use beaconpulse.Prelude.{
  ◌≡◌, ◌∙◌, refl, Bool, true, false, not, ◌||◌, List, [], ◌∷◌, arith, filter, all,
}
use beaconpulse.World.{World}
use beaconpulse.World.Rules.{db-keeps}
use beaconpulse.Monitor.{StatusUpdate, is_paused}
use beaconpulse.Monitor.Store.{
  Row, Tables, takes_status, observed, edit_rows, apply_all, status_tx, apply_status_updates,
}

-- A monitor that someone deleted, disabled or paused.
unfoldable pub is_closed : Row → Bool
is_closed r = r.deleted || not r.monitor.enabled || is_paused r.monitor.last_status

abbrev pub are_observations : List StatusUpdate → Bool
are_observations us = all (λ u. not (is_paused u.status)) us

filter-edit_rows :
    (u : StatusUpdate) (rs : List Row)
    → is_paused u.status ≡ false
    → filter is_closed (edit_rows (takes_status u.monitor) (observed u) rs) ≡ filter is_closed rs
unfolding edit_rows takes_status is_closed
filter-edit_rows u [] h = refl
filter-edit_rows u (r ∷ rs) h = ground (arith, filter-edit_rows u rs h)

filter-apply_all :
    (us : List StatusUpdate) (rs : List Row)
    → are_observations us ≡ true
    → filter is_closed (apply_all us rs).1 ≡ filter is_closed rs
unfolding apply_all
filter-apply_all [] rs h = refl
filter-apply_all (u ∷ us) rs h =
    filter-apply_all us (edit_rows (takes_status u.monitor) (observed u) rs) (ground arith)
    ∙ filter-edit_rows u rs (ground arith)

-- Observed statuses never reach a monitor that is deleted, disabled or paused: the rows of those are the
-- same before and after, whether or not the write succeeds.
pub apply_status_updates-closed :
    (us : List StatusUpdate) (w : World Tables)
    → are_observations us ≡ true
    → filter is_closed (apply_status_updates us w).1.tables.monitors
      ≡ filter is_closed w.tables.monitors
unfolding apply_status_updates status_tx
apply_status_updates-closed [] w h = refl
apply_status_updates-closed (u ∷ us) w h =
    db-keeps (λ t. filter is_closed t.monitors ≡ filter is_closed w.tables.monitors)
      (status_tx (u ∷ us)) w refl (filter-apply_all (u ∷ us) w.tables.monitors h)
