-- ===== src/Monitor/Service.antt =====
-- The use cases: backend/internal/domain/monitor/service.go. The plan reader, the parsers, the address
-- guard and the hash are parameters; fresh ids and random parts of tokens are arguments.
mod Inputs
pub mod Quota
pub mod Pausing
unfoldable pub use Inputs.*
use beaconpulse.Prelude.{
  ℕ, ◌+◌, Bool, true, false, not, ◌||◌, Option, none, some, [], ◌∷◌, ◌++◌, String, ltb,
  if◌then◌else◌, is_some, take,
}
use beaconpulse.Prelude.Int.{ℤ}
use beaconpulse.Text.{Text, codes, is_empty, trim_space}
use beaconpulse.World.{
  AppError, Entry, Result, ok, err, M, ◌>>=◌, ◌>>◌, and_then, pure, throw, best_effort, guard, db,
  record_audit, forbidden, quota_exceeded, new_error, validation_error, internal_error,
}
use beaconpulse.Role
use beaconpulse.Plan
use beaconpulse.Plan.{Plan, Limits}
use beaconpulse.Monitor.{Kind, heartbeat, github_actions, unknown, Settings, Monitor, Actor}
use beaconpulse.Monitor.Headers.{keep_masked_headers}
use beaconpulse.Monitor.Validation.{normalize_and_validate}
use beaconpulse.Monitor.Store.{
  Tables, insert_monitor, get_by_id, update_monitor, set_enabled, soft_delete_tx, count_by_org,
  project_exists, request_sync,
}

abbrev cannot : String → AppError
cannot m = new_error forbidden m

abbrev or_text : Option Text → Text → Text
or_text none t = t
or_text (some s) t = s

abbrev pub of_result : {A : Type 0} → Result A → M Tables A
of_result (ok a) = pure a
of_result (err e) = throw e

abbrev pub of_check : Option AppError → M Tables (Unit {0})
of_check none = pure tt
of_check (some e) = throw e

abbrev monitor_entry : String → Actor → ℕ → Entry
monitor_entry action actor id = record {
  action = action;
  org = actor.org;
  user = some actor.user;
  resource = id;
}

-- sync, then record: neither can fail the call.
unfoldable pub announce : String → Actor → ℕ → M Tables (Unit {0})
announce action actor id = do
  requested ← best_effort request_sync
  record_audit (monitor_entry action actor id)

unfoldable pub assert_project : ℕ → ℕ → M Tables (Unit {0})
assert_project org project = do
  found ← project_exists org project
  guard found (validation_error "project not found" ("project_id" ∷ []))

abbrev drawn_token : Option Text → M Tables Text
drawn_token none = throw internal_error
drawn_token (some token) = pure token

-- The secret that a creation or a rotation reveals once.
pub record Token : Type 0 where
  pub plain : Text
  pub hash : Text
  pub prefix : Text

abbrev token_prefix : Text
token_prefix = codes "bpgh_"

-- newGitHubIngestToken
unfoldable pub ingest_token : (Text → Text) → Text → Token
ingest_token hash_of fresh = record {
  plain = token_prefix ++ fresh;
  hash = hash_of (token_prefix ++ fresh);
  prefix = take 13 (token_prefix ++ fresh);
}

-- The row, the requests that follow it, and what is returned.
unfoldable pub store_new : Actor → Monitor → Option Token → M Tables (Monitor × Option Token)
store_new actor m token = do
  db (insert_monitor m)
  announce "monitor.created" actor m.id
  pure (m, token)

unfoldable pub delete : Actor → ℕ → M Tables (Unit {0})
delete actor id = do
  guard (Role.can_write actor.role) (cannot "your role does not permit deleting monitors")
  found ← get_by_id actor.org id
  db (soft_delete_tx actor.org id actor.user)
  announce "monitor.deleted" actor id

abbrev pub switch_action : Bool → String
switch_action true = "monitor.enabled"
switch_action false = "monitor.paused"

unfoldable pub switch_permitted : Actor → ℕ → Bool → M Tables Monitor
switch_permitted actor id enabled = do
  found ← get_by_id actor.org id
  set_enabled actor.org id enabled actor.user
  announce (switch_action enabled) actor id
  get_by_id actor.org id

-- SetEnabled
unfoldable pub switch : Actor → ℕ → Bool → M Tables Monitor
switch actor id enabled = do
  guard (Role.can_write actor.role) (cannot "your role does not permit changing monitors")
  switch_permitted actor id enabled

module _ (s : Services) where
  abbrev limits_of : Plan → Limits
  limits_of p = Plan.limits_for s.live p

  unfoldable pub org_limits : ℕ → M Tables Limits
  org_limits org = do p ← of_result (s.plan_of org); pure (limits_of p)

  unfoldable pub usage : Actor → M Tables (ℕ × Limits)
  usage actor = do limits ← org_limits actor.org; used ← count_by_org actor.org; pure (used, limits)

  abbrev after_vetting : Vetted → M Tables (Unit {0})
  after_vetting blocked = throw (validation_error "that target cannot be monitored" ("target" ∷ []))
  after_vetting _ = pure tt

  abbrev vet_with : Option (Text → Vetted) → Text → M Tables (Unit {0})
  vet_with none host = pure tt
  vet_with (some vet) host = if is_empty host then pure tt else after_vetting (vet host)

  -- vetTarget
  unfoldable pub vet_target : Kind → Text → M Tables (Unit {0})
  vet_target heartbeat target = pure tt
  vet_target github_actions target = pure tt
  vet_target k target =
      if is_empty target then pure tt else vet_with s.guard (host_of s.parsers target)

  unfoldable pub build :
      Option Text → ℕ → ℕ → Actor → CreateInput → Text → Settings → Option Token → Monitor
  build ping id now actor input target settings token = record {
    id = id;
    org = actor.org;
    project = input.project;
    name = trim_space input.name;
    kind = input.kind;
    target = target;
    enabled = or_bool input.enabled true;
    ping_token = ping;
    last_ping_at = stamp_of ping now;
    grace_seconds =
        grace_of ping input.grace_seconds (or_default input.interval_seconds default_interval);
    is_public = or_bool input.is_public false;
    interval_seconds = or_default input.interval_seconds default_interval;
    timeout_seconds = or_default input.timeout_seconds default_timeout;
    settings = settings;
    github_token_hash = hash_part token;
    github_token_prefix = prefix_part token;
    last_status = unknown;
    last_checked_at = none;
    created_by = some actor.user;
    updated_by = some actor.user;
    created_at = now;
  }
    where
      hash_part : Option Token → Text
      hash_part none = []
      hash_part (some t) = t.hash

      prefix_part : Option Token → Text
      prefix_part none = []
      prefix_part (some t) = t.prefix

  -- The tokens of a push monitor: the one in a heartbeat's URL, the one of a workflow.
  unfoldable pub mint : Kind → Option Text → M Tables (Option Text × Option Token)
  mint heartbeat drawn = do token ← drawn_token drawn; pure (some token, none)
  mint github_actions drawn = do
    fresh ← drawn_token drawn
    pure (none, some (ingest_token s.hash_of fresh))
  mint k drawn = pure (none, none)

  -- What a creation is checked against before its target and settings are.
  unfoldable pub check_new : Actor → CreateInput → M Tables (Unit {0})
  check_new actor input = do
    assert_project actor.org input.project
    limits ← org_limits actor.org
    count ← count_by_org actor.org
    guard (ltb count limits.max_monitors)
        (new_error quota_exceeded "your plan allows up to %d monitors (you already have %d).")
    vet_target input.kind input.target
    let interval = or_default input.interval_seconds default_interval
    of_check (validate_schedule interval (or_default input.timeout_seconds default_timeout))
    of_check (enforce_interval_floor interval limits.min_interval_seconds)

  unfoldable pub create_permitted :
      Option Text → ℕ → ℕ → Actor → CreateInput → M Tables (Monitor × Option Token)
  create_permitted drawn id now actor input = do
    check_new actor input
    kept ← of_result (keep_masked_headers input.settings.headers [])
    checked ← of_result (
        normalize_and_validate s.parsers input.kind input.target
          (record input.settings { headers = kept }))
    tokens ← mint input.kind drawn
    store_new actor (build (tokens.0) id now actor input (checked.0) (checked.1) (tokens.1))
        (tokens.1)

  unfoldable pub create :
      Option Text → ℕ → ℕ → Actor → CreateInput → M Tables (Monitor × Option Token)
  create drawn id now actor input = do
    guard (Role.can_write actor.role) (cannot "your role does not permit creating monitors")
    create_permitted drawn id now actor input

  abbrev vet_change : Kind → Option Text → M Tables (Unit {0})
  vet_change k none = pure tt
  vet_change k (some target) = vet_target k target

  abbrev check_name : Option Text → Option AppError
  check_name none = none
  check_name (some name) =
      if is_empty (trim_space name)
      then some (validation_error "name must not be empty" ("name" ∷ []))
      else none

  abbrev check_floor : ℕ → ℤ → Option ℤ → M Tables (Unit {0})
  check_floor org interval none = pure tt
  check_floor org interval (some given) = do
    limits ← org_limits org
    of_check (enforce_interval_floor interval limits.min_interval_seconds)

  abbrev kept_settings : Option Settings → Settings → Result Settings
  kept_settings none old = ok old
  kept_settings (some given) old =
      with_headers given (keep_masked_headers given.headers old.headers)

  -- Target and settings are checked together if either is given.
  unfoldable pub revalidated : UpdateInput → Monitor → M Tables Monitor
  revalidated input m =
      if is_some input.target || is_some input.settings
      then (do
        settings ← of_result (kept_settings input.settings m.settings)
        (target, settings') ←
            of_result
              (normalize_and_validate s.parsers m.kind (or_text input.target m.target) settings)
        pure (record m { target = target; settings = settings' }))
      else pure m

  -- What an update is checked against before its target and settings are.
  unfoldable pub check_update : Actor → UpdateInput → Monitor → M Tables (Unit {0})
  check_update actor input old = do
    vet_change old.kind input.target
    of_check (check_name input.name)
    let m = scheduled input old
    of_check (validate_schedule m.interval_seconds m.timeout_seconds)
    check_floor actor.org m.interval_seconds input.interval_seconds

  -- The monitor as read with the new values, all checked.
  unfoldable pub check_changes : Actor → UpdateInput → Monitor → M Tables Monitor
  check_changes actor input old = do
    check_update actor input old
    changed ← revalidated input (published input (scheduled input old))
    pure (record changed { updated_by = some actor.user })

  unfoldable pub update_permitted : Actor → ℕ → UpdateInput → M Tables Monitor
  update_permitted actor id input = do
    old ← get_by_id actor.org id
    m ← check_changes actor input old
    update_monitor m
    announce "monitor.updated" actor id
    pure m

  unfoldable pub update : Actor → ℕ → UpdateInput → M Tables Monitor
  update actor id input = do
    guard (Role.can_write actor.role) (cannot "your role does not permit updating monitors")
    update_permitted actor id input

  unfoldable pub rotate_github_token : Option Text → Actor → ℕ → M Tables (Monitor × Token)
  rotate_github_token drawn actor id = do
    guard (Role.can_write actor.role) (cannot "your role does not permit changing monitors")
    old ← get_by_id actor.org id
    guard (is_github old.kind) (validation_error "this monitor has no GitHub ingest token" [])
    fresh ← drawn_token drawn
    let token = ingest_token s.hash_of fresh
    let m = record old {
      github_token_hash = token.hash;
      github_token_prefix = token.prefix;
      updated_by = some actor.user;
    }
    update_monitor m
    record_audit (monitor_entry "monitor.updated" actor id)
    pure (m, token)
