-- ===== src/StatusPage/Settings.antt =====
-- The owner's settings of a page: SettingsService of backend/internal/domain/statuspage/statuspage.go and
-- backend/internal/adapter/postgres/statuspage_settings_repo.go.
use beaconpulse.Slug.{make}
use beaconpulse.Slug.Laws.{is_slug}
use beaconpulse.Prelude.{
  or_zero, ℕ, ◌&&◌, ◌||◌, not, Bool, true, false, Option, none, some, List, [], ◌∷◌, ltb, ◌==◌,
  if◌then◌else◌, any, find, filter, length,
}
use beaconpulse.Text.{characters, Text, text_eq, is_empty, trim_space}
use beaconpulse.World.{
  internal_error, record_audit, Result, ok, err, M, db, pure, throw, guard, ◌>>◌, ◌>>=◌, new_error,
  validation_error, forbidden, conflict, not_found,
}
use beaconpulse.Role
use beaconpulse.Role.{Role}
use beaconpulse.Monitor.Store.{Row}

-- What the statements read and write of a row of organizations.
pub record OrgRow : Type 0 where
  pub id : ℕ
  pub slug : Text
  pub status_page_slug : Option Text
  pub status_page_enabled : Bool
  pub status_page_title : Text
  pub name : Text
  pub deleted : Bool

pub record Tables : Type 0 where
  pub orgs : List OrgRow
  pub monitors : List Row

-- Settings; `slug` is where the page is served.
pub record Settings : Type 0 where
  pub slug : Text
  pub org_slug : Text
  pub custom_slug : Text
  pub org_name : Text
  pub enabled : Bool
  pub title : Text
  pub published_count : ℕ

pub record UpdateInput : Type 0 where
  pub enabled : Option Bool
  pub title : Option Text
  pub slug : Option Text

abbrev pub is_live : ℕ → OrgRow → Bool
is_live id o = o.id == id && not o.deleted

abbrev org_missing : {A : Type 0} → Result A
org_missing = err (new_error not_found "organization not found")

abbrev taken : {A : Type 0} → Result A
taken = err (new_error conflict "that status page URL is already taken")

abbrev pub settings_row : Option OrgRow → Result Settings
settings_row none = org_missing
settings_row (some o) =
    let custom = or_zero o.status_page_slug [] in
    ok (record {
      slug = if is_empty custom then o.slug else custom;
      org_slug = o.slug;
      custom_slug = custom;
      org_name = o.name;
      enabled = o.status_page_enabled;
      title = o.status_page_title;
      published_count = 0;
    })

-- StatusPageSettingsRepository.Get
unfoldable pub get_row : ℕ → M Tables Settings
get_row org = db (λ t. (settings_row (find (is_live org) t.orgs), t))

-- NULLIF
abbrev pub nullif : Text → Option Text
nullif s = if is_empty s then none else some s

abbrev pub same_page_slug : Option Text → Option Text → Bool
same_page_slug (some a) (some b) = text_eq a b
same_page_slug _ _ = false

abbrev pub written : Settings → OrgRow → OrgRow
written s o = record o {
  status_page_enabled = s.enabled;
  status_page_title = s.title;
  status_page_slug = nullif s.custom_slug;
}

unfoldable pub edit_orgs : (OrgRow → Bool) → (OrgRow → OrgRow) → List OrgRow → List OrgRow
edit_orgs p f [] = []
edit_orgs p f (o ∷ os) = (if p o then f o else o) ∷ edit_orgs p f os

-- The unique index on the slugs of the pages of live organizations.
abbrev pub page_slug_taken : ℕ → Option Text → List OrgRow → Bool
page_slug_taken org slug os =
    any (λ o. not (o.id == org) && not o.deleted && same_page_slug o.status_page_slug slug) os

-- The constraint on the form of the slug; that on the title stands in the update.
abbrev valid_page_slug : Option Text → Bool
valid_page_slug none = true
valid_page_slug (some s) = is_slug s

unfoldable pub update_tx : ℕ → Settings → Tables → Result (Unit {0}) × Tables
update_tx org s t =
    if not (any (is_live org) t.orgs)
    then (org_missing, t)
    else if not (valid_page_slug (nullif s.custom_slug)) || ltb 120 (characters s.title)
    then (err internal_error, t)
    else if page_slug_taken org (nullif s.custom_slug) t.orgs
    then (taken, t)
    else (ok tt, record t { orgs = edit_orgs (is_live org) (written s) t.orgs })

unfoldable pub update_row : ℕ → Settings → M Tables (Unit {0})
update_row org s = db (update_tx org s)

abbrev pub uses_slug : Text → OrgRow → Bool
uses_slug slug o = text_eq slug o.slug || same_page_slug (some slug) o.status_page_slug

unfoldable pub is_available : ℕ → Text → List OrgRow → Bool
is_available org slug os =
    not (any (λ o. not o.deleted && not (o.id == org) && uses_slug slug o) os)

unfoldable pub slug_available : ℕ → Text → M Tables Bool
slug_available org slug = db (λ t. (ok (is_available org slug t.orgs), t))

abbrev is_published : ℕ → Row → Bool
is_published org r =
    r.monitor.org == org && r.monitor.is_public && r.monitor.enabled && not r.deleted

unfoldable pub published_count : ℕ → M Tables ℕ
published_count org = db (λ t. (ok (length (filter (is_published org) t.monitors)), t))

-- SettingsService.Get
unfoldable pub get : ℕ → M Tables Settings
get org = do s ← get_row org; n ← published_count org; pure (record s { published_count = n })

-- Settings under change, and whether anything of them changed.
abbrev pub Draft : Type 0
Draft = Settings × Bool

abbrev pub cleared : Settings → Bool → Draft
cleared s changed =
    if is_empty s.custom_slug
    then (s, changed)
    else (record s { custom_slug = []; slug = s.org_slug }, true)

unfoldable pub apply_candidate : ℕ → Text → Draft → M Tables Draft
apply_candidate org slug (s, changed) =
    if is_empty slug
    then throw (validation_error "invalid status page URL" ("slug" ∷ []))
    else if text_eq slug s.custom_slug
    then pure (s, changed)
    else if text_eq slug s.org_slug
    then pure (cleared s changed)
    else do
      free ← slug_available org slug
      (if free
          then pure (record s { custom_slug = slug; slug = slug }, true)
          else throw (new_error conflict "that status page URL is already taken"))

-- applySlug
unfoldable pub apply_slug : ℕ → Text → Draft → M Tables Draft
apply_slug org raw (s, changed) =
    if is_empty (trim_space raw)
    then pure (cleared s changed)
    else apply_candidate org (make raw []) (s, changed)

abbrev pub with_enabled : Option Bool → Draft → Draft
with_enabled none d = d
with_enabled (some b) (s, _) = (record s { enabled = b }, true)

abbrev pub with_title : Option Text → Draft → M Tables Draft
with_title none d = pure d
with_title (some raw) (s, _) =
    let title = trim_space raw in
    if ltb 120 (length title)
    then throw (validation_error "title is too long" ("title" ∷ []))
    else pure (record s { title = title }, true)

abbrev pub with_slug : ℕ → Option Text → Draft → M Tables Draft
with_slug org none d = pure d
with_slug org (some raw) d = apply_slug org raw d

abbrev pub note : ℕ → ℕ → Bool → M Tables (Unit {0})
note org user changed =
    if changed
    then record_audit
        (record { action = "status_page.updated"; org = org; user = some user; resource = org })
    else pure tt

unfoldable pub save : ℕ → ℕ → Draft → M Tables Settings
save org user (s, changed) = do update_row org s; note org user changed; get org

-- SettingsService.Update
unfoldable pub update : Role → ℕ → ℕ → UpdateInput → M Tables Settings
update actor org user input = do
  guard (Role.can_write actor)
      (new_error forbidden "your role does not permit changing the status page")
  current ← get_row org
  titled ← with_title input.title (with_enabled input.enabled (current, false))
  draft ← with_slug org input.slug titled
  save org user draft
