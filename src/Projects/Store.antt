-- ===== src/Projects/Store.antt =====
-- The statements on projects: backend/internal/adapter/postgres/project_repo.go, with the constraints of
-- backend/migrations/0001_init.up.sql, less the bound on a name, which counts characters.
use beaconpulse.Text.{has_length, text_eq, Text}
use beaconpulse.Prelude.{
  find, any, Bool, List, Option, ℕ, none, some, [], ◌∷◌, true, if◌then◌else◌, ◌==◌, ◌&&◌, not, ◌||◌,
}
use beaconpulse.World.{
  internal_error, db, new_error, AppError, M, Result, ok, err, not_found, conflict,
}
use beaconpulse.Monitor.Store.{Row, Tables}
use beaconpulse.Projects.{is_listed, Project}
use beaconpulse.Slug.Laws.{is_slug}

-- `id = $1 AND org_id = $2 AND deleted_at IS NULL`
unfoldable pub is_live_project : ℕ → ℕ → Project → Bool
is_live_project org id p = p.id == id && p.org == org && not p.deleted

-- `ux_projects_org_slug`, for the rows other than one.
unfoldable pub has_slug : ℕ → Text → ℕ → Project → Bool
has_slug org slug except p =
    p.org == org && text_eq p.slug slug && not (p.id == except) && not p.deleted

abbrev project_missing : AppError
project_missing = new_error not_found "project not found"

abbrev slug_conflict : AppError
slug_conflict = new_error conflict "a project with that name already exists"

unfoldable pub project_checks : Project → Bool
project_checks p = has_length 200 p.name && is_slug p.slug && is_listed p.environment

unfoldable pub insert_project : Project → Tables → Result (Unit {0}) × Tables
insert_project p t =
    if not (project_checks p) || any (λ q. q.id == p.id) t.projects
    then (err internal_error, t)
    else if any (λ q. q.org == p.org && text_eq q.slug p.slug && not q.deleted) t.projects
    then (err slug_conflict, t)
    else (ok tt, record t { projects = p ∷ t.projects })

unfoldable pub create_project : Project → M Tables (Unit {0})
create_project p = db (insert_project p)

abbrev project_result : Option Project → Result Project
project_result none = err project_missing
project_result (some p) = ok p

unfoldable pub get_project : ℕ → ℕ → M Tables Project
get_project org id = db (λ t. (project_result (find (is_live_project org id) t.projects), t))

-- The columns that the update writes.
abbrev pub project_written : Project → Project → Project
project_written p old = record old {
  name = p.name;
  description = p.description;
  environment = p.environment;
  is_active = p.is_active;
}

unfoldable pub edit_projects : (Project → Bool) → (Project → Project) → List Project → List Project
edit_projects p f [] = []
edit_projects p f (q ∷ qs) = (if p q then f q else q) ∷ edit_projects p f qs

-- The checks are those of the columns that change.
unfoldable pub update_project_tx : Project → Tables → Result (Unit {0}) × Tables
update_project_tx p t =
    if not (any (is_live_project p.org p.id) t.projects)
    then (err project_missing, t)
    else if not (has_length 200 p.name) || not (is_listed p.environment)
    then (err internal_error, t)
    else (
      ok tt,
      record t {
        projects = edit_projects (is_live_project p.org p.id) (project_written p) t.projects;
      },
    )

unfoldable pub update_project : Project → M Tables (Unit {0})
update_project p = db (update_project_tx p)

-- `project_id = $1 AND org_id = $2 AND deleted_at IS NULL`
unfoldable pub is_part : ℕ → ℕ → Row → Bool
is_part org project r = r.monitor.project == project && r.monitor.org == org && not r.deleted

unfoldable pub delete_parts : ℕ → ℕ → ℕ → List Row → List Row
delete_parts org project by [] = []
delete_parts org project by (r ∷ rs) =
    (if is_part org project r
      then record r { monitor = record r.monitor { updated_by = some by }; deleted = true }
      else r)
    ∷ delete_parts org project by rs

-- The monitors and the project, or neither.
unfoldable pub delete_project_tx : ℕ → ℕ → ℕ → Tables → Result (Unit {0}) × Tables
delete_project_tx org id by t =
    if any (is_live_project org id) t.projects
    then (
      ok tt,
      record t {
        monitors = delete_parts org id by t.monitors;
        projects =
            edit_projects (is_live_project org id) (λ p. record p { deleted = true }) t.projects;
      },
    )
    else (err project_missing, t)

unfoldable pub delete_project : ℕ → ℕ → ℕ → M Tables (Unit {0})
delete_project org id by = db (delete_project_tx org id by)

unfoldable pub slug_exists : ℕ → Text → ℕ → M Tables Bool
slug_exists org slug except = db (λ t. (ok (any (has_slug org slug except) t.projects), t))
