-- ===== src/Projects/Tests.antt =====
-- A project with one monitor: a second one named like it, and its deletion.
use beaconpulse.Projects.Slugs.Allocation.{
  allocate-first, candidates, unique_slug-is_free, is_free, outcome,
}
use beaconpulse.Projects.Store.{
  is_live_project, delete_project_tx, delete_project, get_project, has_slug, slug_exists,
}
use beaconpulse.Projects.Cascade.{delete-IsErased, IsErased}
use beaconpulse.Slug.Laws.{is_slug}
use beaconpulse.Projects.Service.{
  announce_deletion, next_slug, delete_found, allocate, delete, unique_slug,
}
use beaconpulse.Projects.Slugs.{IsSuffix}
use beaconpulse.Prelude.{find, ℕ, ◌≡◌, refl, [], ◌∷◌, true, false}
use beaconpulse.World.{record_audit, db, World, ok}
use beaconpulse.Role.{owner}
use beaconpulse.Text.{text_eq, to_lower, drop_while, trim, trim_space, Text, codes}
use beaconpulse.Slug
use beaconpulse.Monitor.Store.{request_sync, Tables}
use beaconpulse.Projects.{Project, Actor, production}

abbrev web : Project
web = record {
  id = 3;
  org = 7;
  name = codes "Web";
  slug = codes "web";
  description = [];
  environment = production;
  is_active = true;
  deleted = false;
}

abbrev home : World Tables
home = record {
  tables = record { monitors = []; projects = web ∷ []; runs = []; syncs = 0 };
  faults = [];
  audit = [];
}

abbrev suffix : ℕ → Text
suffix n = codes "0a1b2c"

draws_suffixes : (n : ℕ) → IsSuffix (suffix n)
draws_suffixes n = record { bytes = refl; size = refl }

allocated : (unique_slug suffix 7 (codes "Web!") 0 home).0 ≡ ok (codes "web-0a1b2c")
unfolding unique_slug allocate slug_exists has_slug db next_slug Slug.make Slug.walk Slug.shortened
    trim_space trim drop_while to_lower text_eq
allocated = refl

unique_slug-is_free_example :
    (is_slug (codes "web-0a1b2c") ≡ true) × (is_free 7 0 home.tables (codes "web-0a1b2c") ≡ true)
unique_slug-is_free_example =
    unique_slug-is_free suffix 7 (codes "Web!") 0 home draws_suffixes allocated

allocate-first_example : allocate suffix 7 0 (codes "web") 5 (codes "web") home ≡ (
  outcome suffix 7 0
      (codes "web")
      (find (is_free 7 0 home.tables) (candidates suffix 7 0 (codes "web") 5 (codes "web"))),
  home,
)
allocate-first_example = allocate-first suffix 7 0 (codes "web") 5 (codes "web") home

abbrev boss : Actor
boss = record { user = 1; org = 7; role = owner }

deleted : (delete boss 3 home).0 ≡ ok tt
unfolding delete delete_found get_project delete_project delete_project_tx announce_deletion
    request_sync db is_live_project record_audit
deleted = refl

delete-IsErased_example : IsErased 7 3 home.tables (delete boss 3 home).1.tables
delete-IsErased_example = delete-IsErased boss 3 home deleted
