-- ===== src/StatusPage/Public.antt =====
-- The public read: Service.Get of backend/internal/domain/statuspage/statuspage.go on
-- backend/internal/adapter/postgres/statuspage_repo.go. The order that the database's collation gives to
-- the lines is a parameter.
use beaconpulse.ControlPlane.Sorting.{sort_by}
use beaconpulse.StatusPage.{Group, Overall, Shown, summarise, unknown_page}
use beaconpulse.Prelude.{
  ℕ, ◌&&◌, ◌++◌, not, Bool, true, false, Option, none, some, List, [], ◌∷◌, ◌==◌, if◌then◌else◌,
  any, filter, map,
}
use beaconpulse.Text.{Text, text_eq, is_empty}
use beaconpulse.World.{Result, ok, err, M, db, pure, ◌>>=◌, internal_error}
use beaconpulse.StatusPage.Settings.{OrgRow}
use beaconpulse.Maintenance
use beaconpulse.Monitor
use beaconpulse.Monitor.{Monitor}
use beaconpulse.Projects.{Project, Environment}

pub record Notice : Type 0 where
  pub title : Text
  pub starts_at : ℕ
  pub ends_at : ℕ

pub record Page : Type 0 where
  pub org_name : Text
  pub title : Text
  pub overall : Overall
  pub groups : List Group
  pub maintenances : List Notice

-- The tables that the two queries read.
pub record Source : Type 0 where
  pub orgs : List OrgRow
  pub monitors : List Monitor.Store.Row
  pub projects : List Project
  pub windows : List Maintenance.Row

-- A line of the first query.
pub record Line : Type 0 where
  pub org_name : Text
  pub title : Text
  pub project_name : Text
  pub environment : Environment
  pub monitor : Shown

-- `status_page_slug = $1 OR (status_page_slug IS NULL AND slug = $1)`
abbrev pub served_at : Option Text → Text → Text → Bool
served_at (some c) own slug = text_eq c slug
served_at none own slug = text_eq own slug

unfoldable pub serves : Text → OrgRow → Bool
serves slug o = served_at o.status_page_slug o.slug slug && o.status_page_enabled && not o.deleted

abbrev is_published : OrgRow → Monitor.Store.Row → Bool
is_published o r =
    r.monitor.org == o.id && r.monitor.is_public && r.monitor.enabled && not r.deleted

abbrev in_scope : Maintenance.Scope → List ℕ → Monitor → Bool
in_scope Maintenance.org_wide ids m = true
in_scope Maintenance.by_project ids m = any (λ id. id == m.project) ids
in_scope Maintenance.by_monitor ids m = any (λ id. id == m.id) ids
in_scope (Maintenance.unknown _) ids m = false

abbrev is_open : ℕ → OrgRow → Maintenance.Row → Bool
is_open now o w = w.window.org == o.id && not w.deleted && Maintenance.active w.window now

abbrev shown_of : ℕ → List Maintenance.Row → OrgRow → Monitor → Shown
shown_of now ws o m = record {
  name = m.name;
  status = m.last_status;
  in_maintenance = any (λ w. is_open now o w && in_scope w.window.scope w.window.scope_ids m) ws;
  last_checked_at = m.last_checked_at;
}

unfoldable pub join_all : {A B : Type 0} → (A → List B) → List A → List B
join_all f [] = []
join_all f (x ∷ xs) = f x ++ join_all f xs

abbrev is_home : Monitor → Project → Bool
is_home m p = p.id == m.project && not p.deleted

-- The lines of an organization.
unfoldable pub lines_of : ℕ → Source → OrgRow → List Line
lines_of now t o =
    join_all
      (λ r.
        map
          (λ p. record {
            org_name = o.name;
            title = o.status_page_title;
            project_name = p.name;
            environment = p.environment;
            monitor = shown_of now t.windows o r.monitor;
          })
          (filter (is_home r.monitor) t.projects))
      (filter (is_published o) t.monitors)

unfoldable pub page_lines : ℕ → Text → Source → List Line
page_lines now slug t = join_all (lines_of now t) (filter (serves slug) t.orgs)

-- A line goes to the group of its project's name, which it opens if there is none.
unfoldable pub add_line : Line → List Group → List Group
add_line l [] =
    record { name = l.project_name; environment = l.environment; monitors = l.monitor ∷ [] } ∷ []
add_line l (g ∷ gs) =
    if text_eq g.name l.project_name
    then record g { monitors = g.monitors ++ (l.monitor ∷ []) } ∷ gs
    else g ∷ add_line l gs

abbrev add_to : Line → Page → Page
add_to l p = record p { org_name = l.org_name; title = l.title; groups = add_line l p.groups }

unfoldable pub add_lines : List Line → Page → Page
add_lines [] p = p
add_lines (l ∷ ls) p = add_lines ls (add_to l p)

abbrev blank : Page
blank = record { org_name = []; title = []; overall = unknown_page; groups = []; maintenances = [] }

abbrev covers_some : OrgRow → Source → Maintenance.Window → Bool
covers_some o t w =
    any
      (λ r.
        is_published o r
        && any (is_home r.monitor) t.projects
        && in_scope w.scope w.scope_ids r.monitor)
      t.monitors

abbrev notice_of : Maintenance.Row → Notice
notice_of w = record {
  title = w.window.title;
  starts_at = w.window.starts_at;
  ends_at = w.window.ends_at;
}

-- The second query: its subquery for the organization fails on two rows.
abbrev notices_of : ℕ → Source → List OrgRow → Result (List Notice)
notices_of now t [] = ok []
notices_of now t (o ∷ []) = ok (
    map notice_of (
      sort_by (λ w. w.window.starts_at)
        (filter (λ w. is_open now o w && covers_some o t w.window) t.windows)))
notices_of now t (_ ∷ _ ∷ _) = err internal_error

unfoldable pub active_maintenance : ℕ → Text → M Source (List Notice)
active_maintenance now slug = db (λ t. (notices_of now t (filter (serves slug) t.orgs), t))

abbrev with_notices : ℕ → Text → Page → List Group → M Source (Option Page)
with_notices now slug p [] = pure none
with_notices now slug p (_ ∷ _) = do
  ns ← active_maintenance now slug
  pure (some (record p { maintenances = ns }))

module _ (order : List Line → List Line) where
  -- StatusPageRepository.GetBySlug
  unfoldable pub get_by_slug : ℕ → Text → M Source (Option Page)
  get_by_slug now slug = do
    ls ← db (λ t. (ok (order (page_lines now slug t)), t))
    with_notices now slug (add_lines ls blank) (add_lines ls blank).groups

  abbrev finished : Page → Page
  finished p = record p {
    overall = summarise p.groups;
    title = if is_empty p.title then p.org_name else p.title;
  }

  abbrev finished_some : Option Page → Option Page
  finished_some none = none
  finished_some (some p) = some (finished p)

  -- Service.Get
  unfoldable pub get : ℕ → Text → M Source (Option Page)
  get now slug = do p ← get_by_slug now slug; pure (finished_some p)
