-- ===== src/ControlPlane/Files.antt =====
-- The files that Prometheus and Blackbox read: writeAtomic and Paths of
-- backend/internal/adapter/controlplane/syncer.go. A step that fails has no effect; half a document can
-- only stand in the temporary file, which is not told from an empty one.
use beaconpulse.World.Rules.{db_last_rule, db-keeps, db_rule}
use beaconpulse.ControlPlane.{Rule, Scrape, Module}
use beaconpulse.Text.{Text}
use beaconpulse.Prelude.{◌∙◌, ap, arith, Bool, ◌≡◌, refl, Option, none, some, List}
use beaconpulse.World.{internal_error, World, Result, ok, err, M, db, ◌>>◌}
use beaconpulse.Ledger
use beaconpulse.Monitor

-- The content of each of the three files.
pub record Files : Type 0 where
  pub modules : Option (List (Text × Module))
  pub scrapes : Option (List Scrape)
  pub rules : Option (List Rule)

-- A document with the path where it belongs.
pub data Document : Type 0 where
  blackbox_config : List (Text × Module) → Document
  scrape_file : List Scrape → Document
  rules_file : List Rule → Document

-- `loaded` is what the two services run on.
pub record Tables : Type 0 where
  pub monitors : Monitor.Store.Tables
  pub billing : Ledger.Tables
  pub files : Files
  pub temp : Option Document
  pub loaded : Files

abbrev pub place : Document → Files → Files
place (blackbox_config ms) f = record f { modules = some ms }
place (scrape_file ss) f = record f { scrapes = some ss }
place (rules_file rs) f = record f { rules = some rs }

-- A step that changes nothing that is modelled.
unfoldable pub step : M Tables (Unit {0})
step = db (λ t. (ok tt, t))

unfoldable pub fill_temp : Option Document → M Tables (Unit {0})
fill_temp d = db (λ t. (ok tt, record t { temp = d }))

abbrev moved : Option Document → Tables → Result (Unit {0}) × Tables
moved none t = (err internal_error, t)
moved (some d) t = (ok tt, record t { files = place d t.files; temp = none })

-- os.Rename of the temporary file to the path of its document.
unfoldable pub rename : M Tables (Unit {0})
rename = db (λ t. moved t.temp t)

-- `defer`
abbrev pub deferred : {T A B : Type 0} → M T A → M T B → M T A
deferred m k w = let (r, w') = m w in (r, (k w').1)

-- Write, Chmod, Close and Rename.
unfoldable pub replace : Document → M Tables (Unit {0})
replace d = do fill_temp (some d); step; step; rename

unfoldable pub write_atomic : Document → M Tables (Unit {0})
write_atomic d = do step; fill_temp none; deferred (replace d) (fill_temp none)

-- The file is replaced if the write succeeds, and else all files are as they were.
abbrev pub IsAtomic : Document → Files → Result (Unit {0}) × World Tables → Type 0
IsAtomic d old (ok _, w) = w.tables.files ≡ place d old
IsAtomic d old (err _, w) = w.tables.files ≡ old

some_injective : {c d : Document} → some c ≡ some d → c ≡ d
some_injective h = ground arith

module _ (d : Document) (old : Files) where
  rename-IsAtomic :
      (w : World Tables) → w.tables.files ≡ old → w.tables.temp ≡ some d → IsAtomic d old (rename w)
  unfolding rename
  rename-IsAtomic w h e =
      db_last_rule (IsAtomic d old) w (λ t. moved t.temp t) (moved-place w.tables.temp e) (λ fs. h)
    where
      moved-place :
          (o : Option Document)
          → o ≡ some d
          → (fs : List Bool)
          → IsAtomic d old
              (let (r, t) = moved o w.tables in (r, record w { tables = t; faults = fs }))
      moved-place none k fs = ground arith
      moved-place (some c) k fs =
          ap (λ x. place x w.tables.files) (some_injective k) ∙ ap (place d) h

  deferred-IsAtomic :
      (m : M Tables (Unit {0})) (w : World Tables)
      → IsAtomic d old (m w)
      → IsAtomic d old (deferred m (fill_temp none) w)
  unfolding fill_temp
  deferred-IsAtomic m w h = go (m w).0 (m w).1 h
    where
      go :
          (r : Result (Unit {0})) (w' : World Tables)
          → IsAtomic d old (r, w')
          → IsAtomic d old (r, (db (λ t. (ok tt, record t { temp = none })) w').1)
      go (ok a) w' k =
          db-keeps (λ t. t.files ≡ place d old) (λ t. (ok tt, record t { temp = none })) w' k k
      go (err e) w' k =
          db-keeps (λ t. t.files ≡ old) (λ t. (ok tt, record t { temp = none })) w' k k

  replace-IsAtomic : (w : World Tables) → w.tables.files ≡ old → IsAtomic d old (replace d w)
  unfolding replace step fill_temp
  replace-IsAtomic w h =
      db_rule (IsAtomic d old) w _ _
        (λ fs.
          db_rule (IsAtomic d old) _ _ _
            (λ fs. db_rule (IsAtomic d old) _ _ _ (λ fs. rename-IsAtomic _ h refl) (λ fs. h))
            (λ fs. h))
        (λ fs. h)

  pub write_atomic-IsAtomic :
      (w : World Tables) → w.tables.files ≡ old → IsAtomic d old (write_atomic d w)
  unfolding write_atomic step fill_temp
  write_atomic-IsAtomic w h =
      db_rule (IsAtomic d old) w _ _
        (λ fs.
          db_rule (IsAtomic d old) _ _ _
            (λ fs. deferred-IsAtomic (replace d) _ (replace-IsAtomic _ h)) (λ fs. h))
        (λ fs. h)
