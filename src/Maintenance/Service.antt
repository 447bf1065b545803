-- ===== src/Maintenance/Service.antt =====
-- The use cases of the window service: backend/internal/domain/maintenance/service.go.
use beaconpulse.Prelude.{ℕ, Bool, Option, none, some, List, String}
use beaconpulse.Text.{Text}
use beaconpulse.World.{
  Entry, ok, M, ◌>>=◌, ◌>>◌, pure, guard, db, record_audit, forbidden, new_error,
}
use beaconpulse.Role
use beaconpulse.Role.{Role}
use beaconpulse.Maintenance.{
  Window, Actor, Scope, Tables, dedupe_ids, validate, insert_window, get_by_id, update_tx,
  soft_delete_tx, active_for_monitor, active_monitor_ids,
}

pub record CreateInput : Type 0 where
  pub title : Text
  pub description : Text
  pub starts_at : ℕ
  pub ends_at : ℕ
  pub scope : Scope
  pub scope_ids : List ℕ

pub record UpdateInput : Type 0 where
  pub title : Option Text
  pub description : Option Text
  pub starts_at : Option ℕ
  pub ends_at : Option ℕ
  pub scope : Option Scope
  pub scope_ids : Option (List ℕ)

abbrev window_entry : String → Actor → ℕ → Entry
window_entry action actor id = record {
  action = action;
  org = actor.org;
  user = some actor.user;
  resource = id;
}

unfoldable pub opened : ℕ → ℕ → Actor → CreateInput → Window
opened id now actor input = record {
  id = id;
  org = actor.org;
  title = input.title;
  description = input.description;
  starts_at = input.starts_at;
  ends_at = input.ends_at;
  scope = input.scope;
  scope_ids = dedupe_ids input.scope_ids;
  created_by = some actor.user;
  updated_by = some actor.user;
  created_at = now;
  updated_at = now;
}

-- Create; `id` is the fresh id.
unfoldable pub create : ℕ → ℕ → Actor → CreateInput → M Tables Window
create id now actor input = do
  guard (Role.can_write actor.role)
      (new_error forbidden "your role does not permit creating maintenance windows")
  let w = opened id now actor input
  validate w
  db (insert_window w)
  record_audit (window_entry "maintenance.window.created" actor id)
  pure w

abbrev or_else : {A : Type 0} → Option A → A → A
or_else none a = a
or_else (some b) a = b

abbrev pub deduped : Option (List ℕ) → List ℕ → List ℕ
deduped none old = old
deduped (some ids) old = dedupe_ids ids

unfoldable pub merged : ℕ → Actor → UpdateInput → Window → Window
merged now actor input w = record w {
  title = or_else input.title w.title;
  description = or_else input.description w.description;
  starts_at = or_else input.starts_at w.starts_at;
  ends_at = or_else input.ends_at w.ends_at;
  scope = or_else input.scope w.scope;
  scope_ids = deduped input.scope_ids w.scope_ids;
  updated_by = some actor.user;
  updated_at = now;
}

unfoldable pub update : ℕ → Actor → ℕ → UpdateInput → M Tables Window
update now actor id input = do
  guard (Role.can_write actor.role)
      (new_error forbidden "your role does not permit modifying maintenance windows")
  old ← get_by_id actor.org id
  let w = merged now actor input old
  validate w
  db (update_tx now w)
  record_audit (window_entry "maintenance.window.updated" actor w.id)
  pure w

unfoldable pub delete : ℕ → Actor → ℕ → M Tables (Unit {0})
delete now actor id = do
  guard (Role.can_write actor.role)
      (new_error forbidden "your role does not permit deleting maintenance windows")
  old ← get_by_id actor.org id
  db (soft_delete_tx now actor.org id actor.user)
  record_audit (window_entry "maintenance.window.deleted" actor id)

unfoldable pub is_suppressed : ℕ → ℕ → ℕ → M Tables Bool
is_suppressed org monitor at = db (λ t. (ok (active_for_monitor org monitor at t), t))

unfoldable pub suppressed_ids : ℕ → ℕ → M Tables (List ℕ)
suppressed_ids org at = db (λ t. (ok (active_monitor_ids org at t), t))
