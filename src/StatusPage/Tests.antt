-- ===== src/StatusPage/Tests.antt =====
-- A page's headline and its slug at concrete settings.
use mathlib.Core.List.{Mem}
use beaconpulse.Slug.{shortened, walk, make}
use beaconpulse.StatusPage.Headline.{summarise-verdict, shown_all, verdict}
use beaconpulse.StatusPage.Slugs.{IsApart, clashes}
use beaconpulse.Text.{to_lower, drop_while, trim, trim_space, text_eq, Text, codes}
use beaconpulse.StatusPage.{
  under_maintenance, headline, Shown, count_all, count_groups, Group, summarise,
}
use beaconpulse.Prelude.{
  or_zero, any, length, ◌⊎◌, Bool, ℕ, ◌≡◌, refl, true, false, some, none, List, [], ◌∷◌,
}
use beaconpulse.World.{db, World}
use beaconpulse.Role.{member}
use beaconpulse.Monitor.{Status, up, down}
use beaconpulse.Projects.{production}
use beaconpulse.StatusPage.Public.{join_all, Source, page_lines, lines_of, serves}
use beaconpulse.StatusPage.Serving.{page_lines-one}
use beaconpulse.Monitor.Tests.{paused_monitor, start}
use beaconpulse.StatusPage.Updates.{update-IsApart}
use beaconpulse.StatusPage.Settings.{
  is_available, slug_available, apply_candidate, apply_slug, get_row, update, OrgRow, Tables,
  UpdateInput,
}

abbrev shown : Status → Bool → Shown
shown s covered = record {
  name = codes "web";
  status = s;
  in_maintenance = covered;
  last_checked_at = none;
}

abbrev planned : List Group
planned =
    record {
      name = codes "p";
      environment = production;
      monitors = shown down true ∷ shown up false ∷ [];
    }
    ∷ []

during_work : summarise planned ≡ under_maintenance
unfolding summarise count_groups count_all headline
during_work = refl

summarise-verdict_example : summarise planned ≡ verdict (shown_all planned)
summarise-verdict_example = summarise-verdict planned

abbrev org_of : ℕ → Text → OrgRow
org_of id slug = record {
  id = id;
  slug = slug;
  status_page_slug = none;
  status_page_enabled = true;
  status_page_title = [];
  name = slug;
  deleted = false;
}

abbrev two_pages : World Tables
two_pages = record {
  tables = record { orgs = org_of 1 (codes "acme") ∷ org_of 2 (codes "beta") ∷ []; monitors = [] };
  faults = [];
  audit = [];
}

two-IsApart : IsApart two_pages.tables
unfolding clashes text_eq
two-IsApart = ((refl, (refl, tt)), ((refl, (refl, tt)), tt))

abbrev grab : UpdateInput
grab = record { enabled = some true; title = none; slug = some (codes "Beta") }

refused : (update member 1 5 grab two_pages).1.tables ≡ two_pages.tables
unfolding update get_row apply_slug apply_candidate slug_available is_available db text_eq make
    trim_space trim drop_while walk shortened to_lower
refused = refl

update-IsApart_example : IsApart (update member 1 5 grab two_pages).1.tables
update-IsApart_example = update-IsApart 1 5 member grab two_pages two-IsApart

-- The page of organization 7, with its one project.
abbrev source : Source
source = record {
  orgs = org_of 7 (codes "acme") ∷ org_of 2 (codes "beta") ∷ [];
  monitors =
      record {
        monitor = record paused_monitor { enabled = true; is_public = true; last_status = up };
        deleted = false;
      }
      ∷ [];
  projects = start.tables.projects;
  windows = [];
}

source-IsApart : IsApart (record { orgs = source.orgs; monitors = source.monitors })
unfolding clashes text_eq
source-IsApart = ((refl, (refl, tt)), ((refl, (refl, tt)), tt))

page_lines-one_example :
    ((any (serves (codes "acme")) source.orgs ≡ false) × (page_lines 50 (codes "acme") source ≡ []))
    ⊎ ((o : OrgRow) × (Mem o source.orgs
          × ((o.deleted ≡ false)
              × ((o.status_page_enabled ≡ true)
                  × ((or_zero o.status_page_slug o.slug ≡ codes "acme")
                      × (page_lines 50 (codes "acme") source ≡ lines_of 50 source o))))))
page_lines-one_example = page_lines-one (codes "acme") 50 source refl source-IsApart

one_line : length (page_lines 50 (codes "acme") source) ≡ 1
unfolding page_lines serves lines_of join_all text_eq
one_line = refl
