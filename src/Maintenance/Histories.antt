-- ===== src/Maintenance/Histories.antt =====
-- Sequences of calls of the window service, by any actors, with any statements failing.
use beaconpulse.Prelude.{
  ℕ, ◌≡◌, ◌≢◌, ◌∙◌, refl, ap, Bool, true, false, not, ◌&&◌, List, [], ◌∷◌, all, any, filter, ◌==◌,
  arith,
}
use beaconpulse.World.{ok, World, db, record_audit}
use beaconpulse.Maintenance.{
  Row, Actor, MonitorRow, Tables, soft_delete_tx, closed_row, edit_rows, is_row, covers,
  is_live_monitor, active_for_monitor,
}
use beaconpulse.Maintenance.Service.{CreateInput, UpdateInput, create, update, delete}
use beaconpulse.Maintenance.Windows.{
  IsCanonical, create-IsCanonical, update-IsCanonical, delete-IsCanonical, tables-get_by_id,
}
use beaconpulse.Maintenance.Tenancy.{create-other, update-other, delete-other, Answers}

-- A call at a time; for an opening the fresh id comes first.
pub data Call : Type 0 where
  opening : ℕ → ℕ → Actor → CreateInput → Call
  changing : ℕ → Actor → ℕ → UpdateInput → Call
  closing : ℕ → Actor → ℕ → Call

abbrev actor_of : Call → Actor
actor_of (opening id now actor input) = actor
actor_of (changing now actor id input) = actor
actor_of (closing now actor id) = actor

unfoldable pub serve : Call → World Tables → World Tables
serve (opening id now actor input) w = (create id now actor input w).1
serve (changing now actor id input) w = (update now actor id input w).1
serve (closing now actor id) w = (delete now actor id w).1

unfoldable pub serve_all : List Call → World Tables → World Tables
serve_all [] w = w
serve_all (c ∷ cs) w = serve_all cs (serve c w)

abbrev pub are_foreign : ℕ → List Call → Bool
are_foreign org cs = all (λ c. not ((actor_of c).org == org)) cs

serve-IsCanonical :
    (c : Call) (w : World Tables) → IsCanonical w.tables → IsCanonical (serve c w).tables
unfolding serve
serve-IsCanonical (opening id now actor input) w h = create-IsCanonical id now actor input w h
serve-IsCanonical (changing now actor id input) w h = update-IsCanonical now actor id input w h
serve-IsCanonical (closing now actor id) w h = delete-IsCanonical now actor id w h

-- Whatever calls are made, and whichever of them fail, every stored window has a known scope, ends after
-- it starts, lists ids exactly if its scope takes them, and lists none twice and no nil id.
pub serve_all-IsCanonical :
    (cs : List Call) (w : World Tables) → IsCanonical w.tables → IsCanonical (serve_all cs w).tables
unfolding serve_all
serve_all-IsCanonical [] w h = h
serve_all-IsCanonical (c ∷ cs) w h = serve_all-IsCanonical cs (serve c w) (serve-IsCanonical c w h)

module _ (org monitor at : ℕ) where
  serve-other :
      (c : Call) (w : World Tables)
      → (actor_of c).org ≢ org
      → Answers org monitor at w.tables (serve c w).tables
  unfolding serve
  serve-other (opening id now actor input) w h = create-other org monitor at id now actor input w h
  serve-other (changing now actor id input) w h = update-other org monitor at now actor id input w h
  serve-other (closing now actor id) w h = delete-other org monitor at now actor id w h

  -- No calls of other organizations' members change whether an alert of this organization is suppressed.
  pub serve_all-other :
      (cs : List Call) (w : World Tables)
      → are_foreign org cs ≡ true
      → active_for_monitor org monitor at (serve_all cs w).tables
        ≡ active_for_monitor org monitor at w.tables
  unfolding serve_all
  serve_all-other [] w h = refl
  serve_all-other (c ∷ cs) w h =
      serve_all-other cs (serve c w) (ground arith) ∙ (serve-other c w (ground arith)).0

-- The tables without a window.
abbrev pub without : ℕ → ℕ → Tables → Tables
without org id t = record t { windows = filter (λ r. not (is_row org id r)) t.windows }

module _ (org monitor at : ℕ) where
  abbrev hits : List MonitorRow → Row → Bool
  hits ms r = any (λ m. m.id == monitor && is_live_monitor org m && covers at r m) ms

  hits-closed_row :
      (by now : ℕ) (ms : List MonitorRow) (r : Row) → hits ms (closed_row by now r) ≡ false
  unfolding covers
  hits-closed_row by now [] r = refl
  hits-closed_row by now (m ∷ ms) r = ground (arith, hits-closed_row by now ms r)

  hits-edit_rows :
      (home id by now : ℕ) (ms : List MonitorRow) (rs : List Row)
      → any (hits ms) (edit_rows (is_row home id) (closed_row by now) rs)
        ≡ any (hits ms) (filter (λ r. not (is_row home id r)) rs)
  unfolding edit_rows
  hits-edit_rows home id by now ms [] = refl
  hits-edit_rows home id by now ms (r ∷ rs) =
      ground (arith, hits-edit_rows home id by now ms rs, hits-closed_row by now ms r)

  delete-rows :
      (now : ℕ) (actor : Actor) (id : ℕ) (w : World Tables)
      → (delete now actor id w).0 ≡ ok tt
      → (delete now actor id w).1.tables ≡ record w.tables {
        windows = edit_rows (is_row actor.org id) (closed_row actor.user now) w.tables.windows;
      }
  unfolding delete record_audit db soft_delete_tx
  delete-rows now actor id w h = ground (arith, tables-get_by_id actor.org id w)

  -- A window that is deleted stops suppressing alerts at once, and the others go on as before: the
  -- answers are those of the tables without it.
  delete-active_for_monitor :
      (now : ℕ) (actor : Actor) (id : ℕ) (w : World Tables)
      → (delete now actor id w).0 ≡ ok tt
      → active_for_monitor org monitor at (delete now actor id w).1.tables
        ≡ active_for_monitor org monitor at (without actor.org id w.tables)
  unfolding active_for_monitor
  delete-active_for_monitor now actor id w h =
      ap (active_for_monitor org monitor at) (delete-rows now actor id w h)
      ∙ hits-edit_rows actor.org id actor.user now w.tables.monitors w.tables.windows
