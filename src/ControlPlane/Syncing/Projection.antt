-- ===== src/ControlPlane/Syncing/Projection.antt =====
-- What Sync of backend/internal/adapter/controlplane/syncer.go leaves, whatever fails in it.
use beaconpulse.World.Rules.{db_rule}
use beaconpulse.ControlPlane.Capping.{cap_to_plan}
use beaconpulse.Text.{is_empty, Text}
use beaconpulse.ControlPlane.{GeneratorConfig, Artifacts}
use beaconpulse.Prelude.{
  arith, Bool, ℕ, zero, suc, ◌≡◌, ◌∙◌, refl, some, List, [], ◌∷◌, true, false,
}
use beaconpulse.World.{and_then, db, AppError, World, Result, ok, err, M, ◌>>◌}
use beaconpulse.Plan
use beaconpulse.ControlPlane.Files.{
  write_atomic-IsAtomic, IsAtomic, rules_file, write_atomic, Document, place, scrape_file,
  blackbox_config, Tables, Files,
}
use beaconpulse.ControlPlane.Generator.{generate, Generated, failed, generated}
use beaconpulse.ControlPlane.Syncing.{
  Reloader, post, enabled_monitors, plans_of, effective_plans, reload_prometheus, list_all_enabled,
  reload_blackbox, reload_both, sync, write_all,
}

abbrev files_of : Artifacts → Files
files_of a = record { modules = some a.modules; scrapes = some a.scrapes; rules = some a.rules }

-- The files after the first writes, of which there are three.
abbrev written : ℕ → Artifacts → Files → Files
written zero a old = old
written (suc zero) a old = place (blackbox_config a.modules) old
written (suc (suc zero)) a old = record (files_of a) { rules = old.rules }
written (suc (suc (suc _))) a old = files_of a

-- The configuration that the tables describe.
unfoldable pub projection : (ℕ → Text) → GeneratorConfig → Plan.Live → Tables → Generated
projection show_id cfg live t =
    generate show_id cfg
      (cap_to_plan live (plans_of live t.billing) (enabled_monitors t.monitors.monitors))

abbrev pub IsProjected : Generated → Files → Result (Unit {0}) × World Tables → Type 0
IsProjected (failed id) old (ok _, w) = ⊥
IsProjected (failed id) old (err _, w) = w.tables.files ≡ old
IsProjected (generated a) old (ok _, w) =
    (w.tables.files ≡ files_of a) × (w.tables.loaded ≡ files_of a)
IsProjected (generated a) old (err _, w) = (n : ℕ) × (w.tables.files ≡ written n a old)

unchanged :
    (g : Generated) (old : Files) (e : AppError) (w : World Tables)
    → w.tables.files ≡ old
    → IsProjected g old (err e, w)
unchanged (failed id) old e w h = h
unchanged (generated a) old e w h = (0, h)

module _ (a : Artifacts) (old : Files) where
  write_then :
      (d : Document) (before after : Files) (k : M Tables (Unit {0})) (n : ℕ)
      → before ≡ written n a old
      → place d before ≡ after
      → ((w : World Tables) → w.tables.files ≡ after → IsProjected (generated a) old (k w))
      → (w : World Tables) → w.tables.files ≡ before
      → IsProjected (generated a) old ((write_atomic d >> k) w)
  write_then d before after k n b e next w h =
      go (write_atomic d w).0 (write_atomic d w).1 (write_atomic-IsAtomic d before w h)
    where
      go :
          (r : Result (Unit {0})) (w' : World Tables)
          → IsAtomic d before (r, w')
          → IsProjected (generated a) old (and_then r w' (λ _. k))
      go (ok _) w' i = next w' (i ∙ e)
      go (err _) w' i = (n, i ∙ b)

  reload_both-IsProjected :
      (bb pr : Text) (w : World Tables)
      → is_empty bb ≡ false
      → is_empty pr ≡ false
      → w.tables.files ≡ files_of a
      → IsProjected (generated a) old (reload_both bb pr w)
  unfolding reload_both reload_blackbox reload_prometheus post db
  reload_both-IsProjected [] pr w b p h = ground arith
  reload_both-IsProjected (_ ∷ _) [] w b p h = ground arith
  reload_both-IsProjected (x ∷ bb) (y ∷ pr) w b p h = go w.faults
    where
      go :
          (fs : List Bool)
          → IsProjected (generated a) old (reload_both (x ∷ bb) (y ∷ pr) (record w { faults = fs }))
      go [] = (h, h)
      go (true ∷ []) = (3, h)
      go (true ∷ true ∷ fs) = (3, h)
      go (true ∷ false ∷ fs) = (3, h)
      go (false ∷ []) = (h, h)
      go (false ∷ true ∷ fs) = (3, h)
      go (false ∷ false ∷ fs) = (h, h)

module _ (rl : Reloader) (b : is_empty rl.blackbox_reload ≡ false)
    (p : is_empty rl.prometheus_reload ≡ false) where
  write_all-IsProjected :
      (g : Generated) (w : World Tables) → IsProjected g w.tables.files (write_all rl g w)
  write_all-IsProjected (failed id) w = refl
  write_all-IsProjected (generated a) w =
      let old = w.tables.files in
      write_then a old (blackbox_config a.modules) old (written 1 a old) _ 0 refl refl
        (write_then a old (scrape_file a.scrapes) (written 1 a old) (written 2 a old) _ 1 refl refl
          (write_then a old (rules_file a.rules) (written 2 a old) (files_of a) _ 2 refl refl
            (λ w'. reload_both-IsProjected a old rl.blackbox_reload rl.prometheus_reload w' b p)))
        w refl

  -- Where both services have a URL for reloads: a sync that succeeds leaves exactly the configuration that
  -- the tables describe in the files and in both services. One that fails has replaced only the first of the
  -- files, each by its whole new document, and a sync whose tables describe none fails and leaves the files
  -- as they were.
  pub sync-IsProjected :
      (show_id : ℕ → Text) (cfg : GeneratorConfig) (live : Plan.Live) (w : World Tables)
      → IsProjected
          (projection show_id cfg live w.tables)
          w.tables.files
          (sync show_id cfg live rl w)
  unfolding sync projection list_all_enabled effective_plans
  sync-IsProjected show_id cfg live w =
      let g = projection show_id cfg live w.tables in
      db_rule (IsProjected g w.tables.files) w _ _
        (λ fs.
          db_rule (IsProjected g w.tables.files) _ _ _
            (λ fs'. write_all-IsProjected g (record w { faults = fs' }))
            (λ fs'. unchanged g w.tables.files _ _ refl))
        (λ fs. unchanged g w.tables.files _ _ refl)
