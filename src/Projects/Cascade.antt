-- ===== src/Projects/Cascade.antt =====
-- What the deletion of a project takes with it.
use beaconpulse.World.Rules.{Result-cases, bind-ok, db-ok}
use beaconpulse.World.Keeping.{keeps_rules, Keeps-db, Keeps}
use beaconpulse.Projects.Service.{announce_deletion, delete_found, delete}
use beaconpulse.Projects.Store.{
  get_project, is_live_project, is_part, delete_parts, edit_projects, delete_project,
  delete_project_tx,
}
use mathlib.Core.Path.{subst}
use beaconpulse.Prelude.{
  sym, List, filter, any, arith, Bool, ℕ, ◌∙◌, ◌≡◌, refl, ap, [], ◌∷◌, inl, inr, true, false, ◌==◌,
  ◌&&◌, not,
}
use beaconpulse.World.{db, World, ok}
use beaconpulse.Monitor.Store.{request_sync, is_project, Row, Tables}
use beaconpulse.Projects.{Project, Actor}

abbrev pub is_elsewhere : ℕ → ℕ → Row → Bool
is_elsewhere org project r = not (r.monitor.project == project && r.monitor.org == org)

module _ (org id by : ℕ) where
  no_parts : (rs : List Row) → any (is_part org id) (delete_parts org id by rs) ≡ false
  unfolding delete_parts is_part
  no_parts [] = refl
  no_parts (r ∷ rs) = ground (arith, no_parts rs)

  others_stay :
      (rs : List Row)
      → filter (is_elsewhere org id) (delete_parts org id by rs) ≡ filter (is_elsewhere org id) rs
  unfolding delete_parts is_part
  others_stay [] = refl
  others_stay (r ∷ rs) = ground (arith, others_stay rs)

  no_project :
      (ps : List Project)
      → any
          (λ p. p.id == id && p.org == org && not p.deleted)
          (edit_projects (is_live_project org id) (λ p. record p { deleted = true }) ps)
        ≡ false
  unfolding edit_projects is_live_project
  no_project [] = refl
  no_project (p ∷ ps) = ground (arith, no_project ps)

-- What is left of a project after its deletion: it takes no monitors, none of its monitors is live, and
-- the other monitors are as they were.
pub record IsErased (org id : ℕ) (before after : Tables) : Type 0 where
  pub closed : is_project org id after ≡ false
  pub stopped : any (is_part org id) after.monitors ≡ false
  pub kept :
      filter (is_elsewhere org id) after.monitors ≡ filter (is_elsewhere org id) before.monitors

delete_project_tx-IsErased :
    (org id by : ℕ) (t : Tables)
    → (delete_project_tx org id by t).0 ≡ ok tt
    → IsErased org id t (delete_project_tx org id by t).1
unfolding delete_project_tx is_project
delete_project_tx-IsErased org id by t h = record {
  closed = ground (arith, no_project org id by t.projects);
  stopped = ground (arith, no_parts org id by t.monitors);
  kept = ground (arith, others_stay org id by t.monitors);
}

delete_project-IsErased :
    (org id by : ℕ) (w : World Tables)
    → (delete_project org id by w).0 ≡ ok tt
    → IsErased org id w.tables (delete_project org id by w).1.tables
unfolding delete_project
delete_project-IsErased org id by w h =
    let (done, effect) = db-ok (delete_project_tx org id by) w h in
    subst (IsErased org id w.tables) (sym effect)
      (delete_project_tx-IsErased org id by w.tables done)

-- The request to the control plane and the audit log leave the rows alone.
request_sync-IsErased : (org id : ℕ) (before : Tables) → Keeps (IsErased org id before) request_sync
unfolding request_sync is_project
request_sync-IsErased org id before =
    Keeps-db (IsErased org id before) _
      (λ t h. record { closed = h.closed; stopped = h.stopped; kept = h.kept })

announce-IsErased :
    (org : ℕ) (actor : Actor) (id : ℕ) (before : Tables)
    → Keeps (IsErased org id before) (announce_deletion actor id)
unfolding announce_deletion
announce-IsErased org actor id before = search (keeps_rules, request_sync-IsErased)

delete_found-IsErased :
    (actor : Actor) (id : ℕ) (w : World Tables)
    → (delete_found actor id w).0 ≡ ok tt
    → IsErased actor.org id w.tables (delete_found actor id w).1.tables
unfolding delete_found Keeps
delete_found-IsErased actor id w h =
    let gone = delete_project actor.org id actor.user in
    let (a, done, rest, same) = bind-ok gone (λ a. announce_deletion actor id) w h in
    subst (λ r. IsErased actor.org id w.tables r.1.tables) (sym same)
      (announce-IsErased actor.org actor id w.tables (gone w).1
        (delete_project-IsErased actor.org id actor.user w done))

tables-get_project : (org id : ℕ) (w : World Tables) → (get_project org id w).1.tables ≡ w.tables
unfolding get_project db
tables-get_project org id w = ground arith

delete-steps :
    (actor : Actor) (id : ℕ) (w : World Tables)
    → (delete actor id w).0 ≡ ok tt
    → delete actor id w ≡ delete_found actor id (get_project actor.org id w).1
unfolding delete
delete-steps actor id w h = elim (Result-cases (get_project actor.org id w).0) [
  | inl (p, e) ↦ ground arith
  | inr (x, e) ↦ ground arith
]

-- Deleting a project stops all its monitors, whichever writes after the transaction fail, and touches no
-- other monitor; no monitor can be created in it again.
pub delete-IsErased :
    (actor : Actor) (id : ℕ) (w : World Tables)
    → (delete actor id w).0 ≡ ok tt
    → IsErased actor.org id w.tables (delete actor id w).1.tables
delete-IsErased actor id w h =
    let same = delete-steps actor id w h in
    let at = (get_project actor.org id w).1 in
    subst (λ r. IsErased actor.org id w.tables r.1.tables) (sym same)
      (subst (λ t. IsErased actor.org id t (delete_found actor id at).1.tables)
        (tables-get_project actor.org id w)
        (delete_found-IsErased actor id at (ap (λ r. r.0) (sym same) ∙ h)))
