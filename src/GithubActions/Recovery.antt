-- ===== src/GithubActions/Recovery.antt =====
-- A recovery is announced once.
use beaconpulse.Prelude.{
  ℕ, ◌≡◌, ◌≢◌, ◌∙◌, sym, ap, refl, inl, inr, Bool, true, false, Option, some, List, [], ◌∷◌, find,
  find-holds, arith, Bool-cases, Option-cases, if◌then◌else◌,
}
use beaconpulse.Text.{Text}
use beaconpulse.World.{ok, World, db}
use beaconpulse.Monitor.{Monitor, up, is_down, StatusUpdate}
use beaconpulse.Monitor.Store.{
  Row, Tables, is_github_row, takes_status, observed, edit_rows, apply_all, status_tx,
  apply_status_updates, github_by_token_hash, record_github_run,
}
use beaconpulse.GithubActions.{
  GithubRun, run_of, Event, Decision, resolved, classify, is_failure, is_success, act, for_monitor,
  ingest,
}
use beaconpulse.GithubActions.Alerts.{counts, word, ingest-IsAlert}

find-edit_rows :
    (hash : Text) (id : ℕ) (u : StatusUpdate) (rs : List Row) {r : Row}
    → find (is_github_row hash) rs ≡ some r
    → find (is_github_row hash) (edit_rows (takes_status id) (observed u) rs)
      ≡ some (if takes_status id r then record r { monitor = observed u r.monitor } else r)
unfolding edit_rows is_github_row
find-edit_rows hash id u [] h = ground arith
find-edit_rows hash id u (x ∷ rs) {r = r} h = elim (Bool-cases (is_github_row hash x)) [
  | inl hit ↦ ground arith
  | inr miss ↦
      let rest : find (is_github_row hash) rs ≡ some r = ground arith in
      ground (arith, find-edit_rows hash id u rs rest)
]

github_by_token_hash-find :
    (hash : Text) (w : World Tables) {m : Monitor}
    → (github_by_token_hash hash w).0 ≡ ok (some m)
    → (r : Row) × (find (is_github_row hash) w.tables.monitors ≡ some r) × (m ≡ r.monitor)
unfolding github_by_token_hash db
github_by_token_hash-find hash w h =
    elim (Option-cases (find (is_github_row hash) w.tables.monitors)) [
      | inl missing ↦ ground arith
      | inr (r, found) ↦ (r, found, ground arith)
    ]

record_github_run-keeps :
    (run : GithubRun) (w : World Tables)
    → w.faults ≡ []
    → ((record_github_run run w).1.faults ≡ [])
      × ((record_github_run run w).1.tables.monitors ≡ w.tables.monitors)
unfolding record_github_run db
record_github_run-keeps run w h = (ground arith, ground arith)

module _ (now : ℕ) (m : Monitor) (ev : Event) where
  abbrev good : StatusUpdate
  good = record { monitor = m.id; status = up; checked_at = now }

  act-rows :
      (w : World Tables)
      → w.faults ≡ []
      → m.enabled ≡ true
      → classify ev.status ≡ (up, true)
      → (act now m ev w).1.tables.monitors
        ≡ edit_rows (takes_status m.id) (observed good) w.tables.monitors
  unfolding act apply_status_updates status_tx apply_all db
  act-rows w h on green = ground arith

  for_monitor-rows :
      (w : World Tables)
      → w.faults ≡ []
      → counts m ev ≡ true
      → classify ev.status ≡ (up, true)
      → (for_monitor now ev (some m) w).1.tables.monitors
        ≡ edit_rows (takes_status m.id) (observed good) w.tables.monitors
  unfolding for_monitor
  for_monitor-rows w h own green =
      let w1 = (record_github_run (run_of now m ev) w).1 in
      let (quiet, kept) = record_github_run-keeps (run_of now m ev) w h in
      ground (arith, act-rows w1 quiet (ground arith) green, kept)

quiet-github_by_token_hash :
    (hash : Text) (w : World Tables)
    → w.faults ≡ []
    → ((github_by_token_hash hash w).1.faults ≡ [])
      × ((github_by_token_hash hash w).1.tables ≡ w.tables)
unfolding github_by_token_hash db
quiet-github_by_token_hash hash w h = (ground arith, ground arith)

green-classify :
    (ev : Event)
    → is_failure (word ev) ≡ false
    → is_success (word ev) ≡ true
    → classify ev.status ≡ (up, true)
unfolding classify
green-classify ev h h' = ground arith

ingest-rows :
    (hash_of : Text → Text) (now : ℕ) (token : Text) (ev : Event) (w : World Tables) {d : Decision}
    → (ingest hash_of now token ev w).0 ≡ ok d
    → (github_by_token_hash (hash_of token) w).0 ≡ ok (some d.monitor)
    → (ingest hash_of now token ev w).1
      ≡ (for_monitor now ev (some d.monitor) (github_by_token_hash (hash_of token) w).1).1
unfolding ingest
ingest-rows hash_of now token ev w h found = ground arith

observed_down :
    (id now : ℕ) (r : Row)
    → r.monitor.id ≡ id
    → r.deleted ≡ false
    → r.monitor.enabled ≡ true
    → is_down r.monitor.last_status ≡ true
    → takes_status id r ≡ true
unfolding takes_status
observed_down id now r same live on down_now = ground arith

up-observed :
    (u : StatusUpdate) (r r' : Row) {b : Bool} {o : Option Row}
    → b ≡ true
    → o ≡ some (if b then record r { monitor = observed u r.monitor } else r)
    → o ≡ some r'
    → u.status ≡ up
    → is_down r'.monitor.last_status ≡ false
up-observed u r r' h made found is_up = ground arith

true-ne-false : true ≢ false
true-ne-false h = ground arith

live-is_github_row : (hash : Text) (r : Row) → is_github_row hash r ≡ true → r.deleted ≡ false
unfolding is_github_row
live-is_github_row hash r h = ground arith

module _ (hash_of : Text → Text) (token : Text) where
  -- A recovery is announced once: while the database answers, after a run that announced one no next
  -- run of the same monitor announces another, whatever it reports.
  pub ingest-recovers_once :
      (now later : ℕ) (ev next : Event) (w : World Tables) {d d' : Decision}
      → w.faults ≡ []
      → (ingest hash_of now token ev w).0 ≡ ok d
      → d.alert ≡ resolved
      → (ingest hash_of later token next (ingest hash_of now token ev w).1).0 ≡ ok d'
      → d'.alert ≢ resolved
  ingest-recovers_once now later ev next w {d = d} {d' = d'} h first is_first second is_second =
      let (found, alert) = ingest-IsAlert hash_of now token ev w first in
      let w2 = (ingest hash_of now token ev w).1 in
      let (found', alert') = ingest-IsAlert hash_of later token next w2 second in
      let why = alert.resolves.0 is_first in
      let why' = alert'.resolves.0 is_second in
      let (r, row, same) = github_by_token_hash-find (hash_of token) w found in
      let (r', row', same') = github_by_token_hash-find (hash_of token) w2 found' in
      let (quiet, kept) = quiet-github_by_token_hash (hash_of token) w h in
      let w1 = (github_by_token_hash (hash_of token) w).1 in
      let green = green-classify ev (ground arith) (ground arith) in
      let rows : w2.tables.monitors
          ≡ edit_rows (takes_status d.monitor.id) (observed (good now d.monitor ev))
              w.tables.monitors =
        ap (λ x. x.tables.monitors) (ingest-rows hash_of now token ev w first found)
        ∙ for_monitor-rows now d.monitor ev w1 quiet (ground arith) green
        ∙ ap
            (λ t.
              edit_rows (takes_status d.monitor.id) (observed (good now d.monitor ev)) t.monitors)
            kept in
      let takes =
        observed_down d.monitor.id now r (ap (λ x. x.id) (sym same))
          (live-is_github_row (hash_of token) r
            (find-holds (is_github_row (hash_of token)) w.tables.monitors row))
          (ap (λ x. x.enabled) (sym same) ∙ ground arith)
          (ap (λ x. is_down x.last_status) (sym same) ∙ ground arith) in
      let after =
        ap (find (is_github_row (hash_of token))) rows
        ∙ find-edit_rows (hash_of token) d.monitor.id (good now d.monitor ev) w.tables.monitors
            row in
      let seen_up = up-observed (good now d.monitor ev) r r' takes after row' refl in
      let seen_down : is_down d'.monitor.last_status ≡ true = ground arith in
      true-ne-false (sym seen_down ∙ ap (λ x. is_down x.last_status) same' ∙ seen_up)
