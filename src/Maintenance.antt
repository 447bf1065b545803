-- ===== src/Maintenance.antt =====
-- Planned downtime: backend/internal/domain/maintenance/{maintenance,service}.go, and the statements of
-- backend/internal/adapter/postgres/maintenance_repo.go on the tables of windows and monitors. Times
-- are seconds and 0 is the zero time; ids are numbers and 0 is the nil id.
pub mod Service
pub mod Windows
pub mod Coverage
pub mod Tenancy
pub mod Histories
mod Tests
use beaconpulse.Prelude.{
  ℕ, ◌+◌, Bool, true, false, not, ◌&&◌, ◌||◌, Option, none, some, List, [], ◌∷◌, ◌++◌, map, ltb,
  leb, ◌==◌, if◌then◌else◌, any, find, filter, String, length,
}
use beaconpulse.Text.{characters, has_length, Text}
use beaconpulse.World.{
  AppError, Result, ok, err, M, and_then, guard, db, not_found, new_error, validation_error,
  internal_error,
}
use beaconpulse.Role
use beaconpulse.Role.{Role}

-- Scope; `unknown` is a string that names none.
pub data Scope : Type 0 where
  org_wide by_project by_monitor : Scope
  unknown : Text → Scope

abbrev pub valid_scope : Scope → Bool
valid_scope (unknown _) = false
valid_scope _ = true

abbrev is_org_wide : Scope → Bool
is_org_wide org_wide = true
is_org_wide _ = false

pub record Window : Type 0 where
  pub id : ℕ
  pub org : ℕ
  pub title : Text
  pub description : Text
  pub starts_at : ℕ
  pub ends_at : ℕ
  pub scope : Scope
  pub scope_ids : List ℕ
  pub created_by : Option ℕ
  pub updated_by : Option ℕ
  pub created_at : ℕ
  pub updated_at : ℕ

-- Window.Active
unfoldable pub active : Window → ℕ → Bool
active w t = not (ltb t w.starts_at) && ltb t w.ends_at

pub record Actor : Type 0 where
  pub user : ℕ
  pub org : ℕ
  pub role : Role

-- A row of maintenance_windows: the window and whether it is soft-deleted.
pub record Row : Type 0 where
  pub window : Window
  pub deleted : Bool

-- What the statements read of a row of monitors.
pub record MonitorRow : Type 0 where
  pub id : ℕ
  pub org : ℕ
  pub project : ℕ
  pub deleted : Bool

pub record Tables : Type 0 where
  pub windows : List Row
  pub monitors : List MonitorRow

abbrev pub mem : ℕ → List ℕ → Bool
mem x xs = any (λ y. y == x) xs

abbrev dedupe_from : List ℕ → List ℕ → List ℕ
dedupe_from seen [] = []
dedupe_from seen (id ∷ ids) =
    let fresh = not (id == 0 || mem id seen) in
    let rest = dedupe_from (if fresh then id ∷ seen else seen) ids in
    if fresh then id ∷ rest else rest

unfoldable pub dedupe_ids : List ℕ → List ℕ
dedupe_ids ids = dedupe_from [] ids

abbrev field_if : Bool → String → List String
field_if bad name = if bad then name ∷ [] else []

abbrev pub range_fields : Window → List String
range_fields w =
    if w.starts_at == 0 || w.ends_at == 0
    then "starts_at" ∷ []
    else field_if (not (ltb w.starts_at w.ends_at)) "ends_at"

abbrev pub scope_fields : Window → List String
scope_fields w =
    if not (valid_scope w.scope)
    then "scope" ∷ []
    else if is_org_wide w.scope && ltb 0 (length w.scope_ids)
    then "scope_ids" ∷ []
    else field_if (not (is_org_wide w.scope) && length w.scope_ids == 0) "scope_ids"

abbrev text_fields : Window → List String
text_fields w =
    field_if (ltb (length w.title) 1 || ltb 200 (length w.title)) "title"
    ++ field_if (ltb 2000 (length w.description)) "description"

unfoldable pub invalid_fields : Window → List String
invalid_fields w = text_fields w ++ range_fields w ++ scope_fields w

abbrev is_nil : List String → Bool
is_nil [] = true
is_nil (f ∷ fs) = false

unfoldable pub validate : Window → M Tables (Unit {0})
validate w =
    guard (is_nil (invalid_fields w))
      (validation_error "invalid maintenance window" (invalid_fields w))

-- The table's CHECK constraints on range and scope.
unfoldable pub satisfies_checks : Window → Bool
satisfies_checks w =
    valid_scope w.scope
    && ltb w.starts_at w.ends_at
    && (is_org_wide w.scope && length w.scope_ids == 0
        || not (is_org_wide w.scope) && ltb 0 (length w.scope_ids))

-- Those on lengths, which count characters where the code counts bytes.
abbrev pub length_checks : Window → Bool
length_checks w = has_length 200 w.title && leb (characters w.description) 2000

unfoldable pub insert_window : Window → Tables → Result (Unit {0}) × Tables
insert_window w t =
    if any (λ r. r.window.id == w.id) t.windows || not (length_checks w && satisfies_checks w)
    then (err internal_error, t)
    else (ok tt, record t { windows = record { window = w; deleted = false } ∷ t.windows })

-- `id = $1 AND org_id = $2 AND deleted_at IS NULL`
abbrev pub is_row : ℕ → ℕ → Row → Bool
is_row org id r = r.window.id == id && r.window.org == org && not r.deleted

abbrev window_missing : AppError
window_missing = new_error not_found "maintenance window not found"

abbrev row_result : Option Row → Result Window
row_result none = err window_missing
row_result (some r) = ok r.window

unfoldable pub get_by_id : ℕ → ℕ → M Tables Window
get_by_id org id = db (λ t. (row_result (find (is_row org id) t.windows), t))

-- The columns that the update writes; the row's trigger sets the time.
abbrev written : Window → ℕ → Window → Window
written w now old = record old {
  title = w.title;
  description = w.description;
  starts_at = w.starts_at;
  ends_at = w.ends_at;
  scope = w.scope;
  scope_ids = w.scope_ids;
  updated_by = w.updated_by;
  updated_at = now;
}

abbrev pub changed_row : Window → ℕ → Row → Row
changed_row w now r = record r { window = written w now r.window }

abbrev pub closed_row : ℕ → ℕ → Row → Row
closed_row by now r = record r {
  window = record r.window { updated_by = some by; updated_at = now };
  deleted = true;
}

unfoldable pub edit_rows : (Row → Bool) → (Row → Row) → List Row → List Row
edit_rows p f [] = []
edit_rows p f (r ∷ rs) = (if p r then f r else r) ∷ edit_rows p f rs

unfoldable pub update_tx : ℕ → Window → Tables → Result (Unit {0}) × Tables
update_tx now w t =
    if not (any (is_row w.org w.id) t.windows)
    then (err window_missing, t)
    else if not (length_checks w && satisfies_checks w)
    then (err internal_error, t)
    else (ok tt, record t { windows = edit_rows (is_row w.org w.id) (changed_row w now) t.windows })

unfoldable pub soft_delete_tx : ℕ → ℕ → ℕ → ℕ → Tables → Result (Unit {0}) × Tables
soft_delete_tx now org id by t =
    if any (is_row org id) t.windows
    then (ok tt, record t { windows = edit_rows (is_row org id) (closed_row by now) t.windows })
    else (err window_missing, t)

-- The join and the scope predicate that the two queries share, at one window and one monitor.
unfoldable pub covers : ℕ → Row → MonitorRow → Bool
covers at r m =
    r.window.org == m.org
    && not r.deleted
    && leb r.window.starts_at at
    && ltb at r.window.ends_at
    && elim r.window.scope [
      | org_wide ↦ true
      | by_project ↦ mem m.project r.window.scope_ids
      | by_monitor ↦ mem m.id r.window.scope_ids
      | unknown s ↦ false
    ]

unfoldable pub is_live_monitor : ℕ → MonitorRow → Bool
is_live_monitor org m = m.org == org && not m.deleted

-- `SELECT EXISTS (…)`
unfoldable pub active_for_monitor : ℕ → ℕ → ℕ → Tables → Bool
active_for_monitor org monitor at t =
    any (λ r. any (λ m. m.id == monitor && is_live_monitor org m && covers at r m) t.monitors)
      t.windows

-- `SELECT DISTINCT m.id …`, which the caller reads into a set.
unfoldable pub active_monitor_ids : ℕ → ℕ → Tables → List ℕ
active_monitor_ids org at t =
    map (λ m. m.id)
      (filter (λ m. is_live_monitor org m && any (λ r. covers at r m) t.windows) t.monitors)
