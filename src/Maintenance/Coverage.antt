-- ===== src/Maintenance/Coverage.antt =====
-- Which monitors the stored windows cover.
use beaconpulse.Prelude.{
  any-swap, any-factor, any-cong, ℕ, ◌≡◌, ◌∙◌, sym, refl, Bool, true, ◌&&◌, List, [], ◌∷◌, map, any,
  filter, any-factor, any-cong, any-swap, ◌==◌, arith,
}
use beaconpulse.Maintenance.{
  Row, MonitorRow, Tables, mem, covers, active, is_live_monitor, active_for_monitor,
  active_monitor_ids,
}

mem-filter :
    (p : MonitorRow → Bool) (x : ℕ) (ms : List MonitorRow)
    → mem x (map (λ m. m.id) (filter p ms)) ≡ any (λ m. m.id == x && p m) ms
mem-filter p x [] = refl
mem-filter p x (m ∷ ms) = ground (arith, mem-filter p x ms)

-- The badges of a list and the suppression of an alert never disagree: a monitor is in the set of the
-- batch query exactly when the query for that one monitor says that a window covers it.
mem-active_monitor_ids :
    (org monitor at : ℕ) (t : Tables)
    → mem monitor (active_monitor_ids org at t) ≡ active_for_monitor org monitor at t
unfolding active_monitor_ids active_for_monitor
mem-active_monitor_ids org monitor at t =
    mem-filter (λ m. is_live_monitor org m && any (λ r. covers at r m) t.windows) monitor t.monitors
    ∙ any-cong
        (λ m. m.id == monitor && (is_live_monitor org m && any (λ r. covers at r m) t.windows))
        (λ m. any (λ r. m.id == monitor && is_live_monitor org m && covers at r m) t.windows)
        t.monitors
        (λ m. ground (
          arith,
          any-factor (m.id == monitor && is_live_monitor org m) (λ r. covers at r m) t.windows,
        ))
    ∙ sym (
        any-swap (λ r m. m.id == monitor && is_live_monitor org m && covers at r m) t.windows
          t.monitors)

-- A window that covers a monitor is not deleted, is of the monitor's organization, and is active.
covers-active :
    (at : ℕ) (r : Row) (m : MonitorRow) → covers at r m ≡ true → active r.window at ≡ true
unfolding covers active
covers-active at r m h = ground arith
