-- ===== src/Projects/Service.antt =====
-- The use cases of projects: backend/internal/domain/project/service.go. The new row's id and what each
-- attempt at a slug draws are arguments.
use beaconpulse.Prelude.Int.{ℤ, pos, leb_ℤ, ltb_ℤ}
use beaconpulse.Projects.Store.{
  delete_project, get_project, slug_exists, create_project, update_project,
}
use beaconpulse.Text.{trim, codes, is_empty, trim_space, Text}
use beaconpulse.Prelude.{
  length, take, Bool, ltb, Option, String, ℕ, zero, suc, ◌-◌, ◌++◌, none, some, [], ◌∷◌, true,
  false, if◌then◌else◌, ◌==◌, ◌||◌,
}
use beaconpulse.World.{
  best_effort, record_audit, Entry, guard, new_error, pure, throw, validation_error, AppError, M,
  conflict, forbidden, ◌>>=◌, ◌>>◌,
}
use beaconpulse.Monitor.Store.{request_sync, Tables}
use beaconpulse.Projects.{is_listed, Project, Environment, production, Actor}
use beaconpulse.Role
use beaconpulse.Slug.{make, hyphen}

pub record CreateInput : Type 0 where
  pub name : Text
  pub slug : Text
  pub description : Text
  pub environment : Option Environment
  pub is_active : Option Bool

pub record UpdateInput : Type 0 where
  pub name : Option Text
  pub description : Option Text
  pub environment : Option Environment
  pub is_active : Option Bool

abbrev cannot : String → AppError
cannot m = new_error forbidden m

abbrev bad_environment : AppError
bad_environment = validation_error "invalid environment" ("environment" ∷ [])

abbrev project_entry : String → Actor → ℕ → Entry
project_entry action actor id = record {
  action = action;
  org = actor.org;
  user = some actor.user;
  resource = id;
}

-- A base cut so that a hyphen and the suffix still fit.
unfoldable pub next_slug : Text → Text → Text
next_slug base suffix =
    let max = 63 - length suffix - 1 in
    (if ltb max (length base) then trim (λ c. c == hyphen) (take max base) else base)
    ++ (hyphen ∷ suffix)

-- The loop of uniqueSlug, for the attempts that are left.
unfoldable pub allocate : (ℕ → Text) → ℕ → ℕ → Text → ℕ → Text → M Tables Text
allocate suffix org except base zero candidate =
    throw (new_error conflict "could not allocate a unique project slug")
allocate suffix org except base (suc left) candidate = do
  taken ← slug_exists org candidate except
  (if taken
      then allocate suffix org except base left (next_slug base (suffix left))
      else pure candidate)

unfoldable pub unique_slug : (ℕ → Text) → ℕ → Text → ℕ → M Tables Text
unique_slug suffix org desired except =
    let base = make desired (codes "project") in allocate suffix org except base 5 base

abbrev pub or_else : {A : Type 0} → Option A → A → A
or_else none a = a
or_else (some b) a = b

abbrev pub desired_of : CreateInput → Text
desired_of input = if is_empty input.slug then input.name else input.slug

abbrev pub new_project : ℕ → Actor → CreateInput → Text → Project
new_project id actor input slug = record {
  id = id;
  org = actor.org;
  name = trim_space input.name;
  slug = slug;
  description = trim_space input.description;
  environment = or_else input.environment production;
  is_active = or_else input.is_active true;
  deleted = false;
}

unfoldable pub store_project : Actor → Project → M Tables Project
store_project actor p = do
  create_project p
  record_audit (project_entry "project.created" actor p.id)
  pure p

unfoldable pub create_allowed : (ℕ → Text) → ℕ → Actor → CreateInput → M Tables Project
create_allowed suffix id actor input = do
  slug ← unique_slug suffix actor.org (desired_of input) 0
  store_project actor (new_project id actor input slug)

unfoldable pub create : (ℕ → Text) → ℕ → Actor → CreateInput → M Tables Project
create suffix id actor input = do
  guard (Role.can_write actor.role) (cannot "your role does not permit creating projects")
  guard (is_listed (or_else input.environment production)) bad_environment
  create_allowed suffix id actor input

unfoldable pub renamed : Option Text → Project → M Tables Project
renamed none p = pure p
renamed (some name) p =
    if is_empty (trim_space name)
    then throw (validation_error "name must not be empty" ("name" ∷ []))
    else pure (record p { name = trim_space name })

unfoldable pub described : Option Text → Project → Project
described none p = p
described (some text) p = record p { description = trim_space text }

unfoldable pub moved : Option Environment → Project → M Tables Project
moved none p = pure p
moved (some e) p =
    if is_listed e then pure (record p { environment = e }) else throw bad_environment

unfoldable pub merged : UpdateInput → Project → M Tables Project
merged input p = do
  named ← renamed input.name p
  placed ← moved input.environment (described input.description named)
  pure (record placed { is_active = or_else input.is_active placed.is_active })

unfoldable pub write_project : Actor → Project → M Tables Project
write_project actor p = do
  update_project p
  record_audit (project_entry "project.updated" actor p.id)
  pure p

unfoldable pub update : Actor → ℕ → UpdateInput → M Tables Project
update actor id input = do
  guard (Role.can_write actor.role) (cannot "your role does not permit updating projects")
  p ← get_project actor.org id
  changed ← merged input p
  write_project actor changed

-- The monitors go with the project, so the control plane is asked to stop probing them.
unfoldable pub announce_deletion : Actor → ℕ → M Tables (Unit {0})
announce_deletion actor id = do
  requested ← best_effort request_sync
  record_audit (project_entry "project.deleted" actor id)

unfoldable pub delete_found : Actor → ℕ → M Tables (Unit {0})
delete_found actor id = do delete_project actor.org id actor.user; announce_deletion actor id

unfoldable pub delete : Actor → ℕ → M Tables (Unit {0})
delete actor id = do
  guard (Role.can_write actor.role) (cannot "your role does not permit deleting projects")
  found ← get_project actor.org id
  delete_found actor id

-- normalizeFilter: a page of 1 to 200 rows, 50 if it asks for another number.
unfoldable pub page_size : ℤ → ℤ
page_size limit = if leb_ℤ limit (pos 0) || ltb_ℤ (pos 200) limit then pos 50 else limit

unfoldable pub page_start : ℤ → ℤ
page_start offset = if ltb_ℤ offset (pos 0) then pos 0 else offset
