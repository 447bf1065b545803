-- ===== src/Monitor/Service/Pausing.antt =====
-- Pausing a monitor, and what an update does to one that is paused.
use beaconpulse.Prelude.{
  ℕ, ◌≡◌, ◌∙◌, sym, ap, refl, inl, inr, Bool, true, false, some, List, [], ◌∷◌, arith, Bool-cases,
  Option-cases, find-holds, find,
}
use beaconpulse.World.{Result, ok, World, db}
use beaconpulse.World.Rules.{guard_rule, bind-ok}
use beaconpulse.Role
use beaconpulse.Monitor.{Monitor, Actor, is_paused}
use beaconpulse.Monitor.Store.{
  enabled_status, Row, Tables, get_by_id, update_monitor, update_tx, edit_tx, edit_rows, written,
  switched, set_enabled, is_row, takes_status,
}
use beaconpulse.Monitor.Service.Quota.{announce-keeps}
use beaconpulse.Monitor.Service.{
  switch_action, switch_permitted, or_bool, Services, UpdateInput, update, update_permitted,
  check_changes, check_update, vet_target, org_limits, switch, revalidated, scheduled, published,
  announce,
}

find-edit_rows :
    (org id : ℕ) (f : Monitor → Monitor) (rs : List Row) {r : Row}
    → ((m : Monitor) → ((f m).id ≡ m.id) × ((f m).org ≡ m.org))
    → find (is_row org id) rs ≡ some r
    → find (is_row org id) (edit_rows (is_row org id) f rs)
      ≡ some (record r { monitor = f r.monitor })
unfolding edit_rows is_row
find-edit_rows org id f [] keeps h = ground arith
find-edit_rows org id f (x ∷ rs) {r = r} keeps h = elim (Bool-cases (is_row org id x)) [
  | inl hit ↦ ground (arith, keeps x.monitor)
  | inr miss ↦
      let rest : find (is_row org id) rs ≡ some r = ground arith in
      ground (arith, find-edit_rows org id f rs keeps rest)
]

some_injective : {a b : Row} → some a ≡ some b → a ≡ b
some_injective h = ground arith

is_row-fields :
    (org id : ℕ) (r : Row) → is_row org id r ≡ true → (r.monitor.id ≡ id) × (r.monitor.org ≡ org)
unfolding is_row
is_row-fields org id r h = (ground arith, ground arith)

find-written :
    (org id : ℕ) (m : Monitor) (rs rs' : List Row) (r : Row)
    → m.id ≡ id
    → m.org ≡ org
    → rs' ≡ edit_rows (is_row m.org m.id) (written m) rs
    → find (is_row org id) rs ≡ some r
    → find (is_row org id) rs' ≡ some (record r { monitor = written m r.monitor })
find-written org id m rs rs' r same_id same_org rows found =
    ap (find (is_row org id)) rows
    ∙ ap (λ o. find (is_row org id) (edit_rows (is_row o m.id) (written m) rs)) same_org
    ∙ ap (λ i. find (is_row org id) (edit_rows (is_row org i) (written m) rs)) same_id
    ∙ find-edit_rows org id (written m) rs (λ x. (refl, refl)) found

get_by_id-find :
    (org id : ℕ) (w : World Tables) {m : Monitor}
    → (get_by_id org id w).0 ≡ ok m
    → (r : Row) × (find (is_row org id) w.tables.monitors ≡ some r) × (m ≡ r.monitor)
unfolding get_by_id db
get_by_id-find org id w h = elim (Option-cases (find (is_row org id) w.tables.monitors)) [
  | inl missing ↦ ground arith
  | inr (r, found) ↦ (r, found, ground arith)
]

tables-get_by_id : (org id : ℕ) (w : World Tables) → (get_by_id org id w).1.tables ≡ w.tables
unfolding get_by_id db
tables-get_by_id org id w = ground arith

update_monitor-rows :
    (m : Monitor) (w : World Tables)
    → (update_monitor m w).0 ≡ ok tt
    → (update_monitor m w).1.tables.monitors
      ≡ edit_rows (is_row m.org m.id) (written m) w.tables.monitors
unfolding update_monitor update_tx edit_tx db
update_monitor-rows m w h = ground arith

module _ (s : Services) where
  tables-check_changes :
      (actor : Actor) (input : UpdateInput) (old : Monitor) (w : World Tables)
      → (check_changes s actor input old w).1.tables ≡ w.tables
  unfolding check_changes check_update revalidated vet_target org_limits
  tables-check_changes actor input old w = ground arith

  revalidated-keeps :
      (input : UpdateInput) (m : Monitor) (w : World Tables) {c : Monitor}
      → (revalidated s input m w).0 ≡ ok c
      → (c.id ≡ m.id) × (c.org ≡ m.org) × (c.enabled ≡ m.enabled)
  unfolding revalidated
  revalidated-keeps input m w h = (ground arith, ground arith, ground arith)

  check_changes-keeps :
      (actor : Actor) (input : UpdateInput) (old : Monitor) (w : World Tables) {m : Monitor}
      → (check_changes s actor input old w).0 ≡ ok m
      → (m.id ≡ old.id) × (m.org ≡ old.org) × (m.enabled ≡ or_bool input.enabled old.enabled)
  unfolding check_changes scheduled published
  check_changes-keeps actor input old w h =
      let (x1, checked, h1, e1) = bind-ok (check_update s actor input old) _ w h in
      let w1 = (check_update s actor input old w).1 in
      let m1 = published input (scheduled input old) in
      let (c, valid, h2, e2) = bind-ok (revalidated s input m1) _ w1 h1 in
      let (same_id, same_org, same_enabled) = revalidated-keeps input m1 w1 valid in
      (ground arith, ground arith, ground arith)

  -- The row that an update found and what it made of it.
  abbrev Leaves : Actor → ℕ → UpdateInput → Tables → Tables → Type 0
  Leaves actor id input t t' =
      (r : Row) × (r' : Row) × (find (is_row actor.org id) t.monitors ≡ some r)
      × (find (is_row actor.org id) t'.monitors ≡ some r')
      × (r'.monitor.last_status ≡ r.monitor.last_status)
      × (r'.monitor.enabled ≡ or_bool input.enabled r.monitor.enabled)

  update_permitted-Leaves :
      (actor : Actor) (id : ℕ) (input : UpdateInput) (w : World Tables) {x : Monitor}
      → (update_permitted s actor id input w).0 ≡ ok x
      → Leaves actor id input w.tables (update_permitted s actor id input w).1.tables
  unfolding update_permitted
  update_permitted-Leaves actor id input w h =
      let (old, got, h1, e1) = bind-ok (get_by_id actor.org id) _ w h in
      let (r, found, same) = get_by_id-find actor.org id w got in
      let w1 = (get_by_id actor.org id w).1 in
      let (m, checked, h2, e2) = bind-ok (check_changes s actor input old) _ w1 h1 in
      let (same_id, same_org, chosen) = check_changes-keeps actor input old w1 checked in
      let w2 = (check_changes s actor input old w1).1 in
      let (x3, written_ok, h3, e3) = bind-ok (update_monitor m) _ w2 h2 in
      let w3 = (update_monitor m w2).1 in
      let (x4, said, h4, e4) = bind-ok (announce "monitor.updated" actor id) _ w3 h3 in
      let (row_id, row_org) =
        is_row-fields actor.org id r (find-holds (is_row actor.org id) w.tables.monitors found) in
      let rows =
        ap (λ x. x.1.tables.monitors) (e1 ∙ e2 ∙ e3 ∙ e4)
        ∙ announce-keeps "monitor.updated" actor id w3
        ∙ update_monitor-rows m w2 written_ok
        ∙ ap (λ t. edit_rows (is_row m.org m.id) (written m) t.monitors)
            (tables-check_changes actor input old w1 ∙ tables-get_by_id actor.org id w) in
      (
        r,
        record r { monitor = written m r.monitor },
        found,
        find-written actor.org id m w.tables.monitors _ r (same_id ∙ ap (λ v. v.id) same ∙ row_id)
            (same_org ∙ ap (λ v. v.org) same ∙ row_org) rows found,
        refl,
        chosen ∙ ap (λ v. or_bool input.enabled v.enabled) same,
      )

  update-Leaves :
      (actor : Actor) (id : ℕ) (input : UpdateInput) (w : World Tables) {x : Monitor}
      → (update s actor id input w).0 ≡ ok x
      → Leaves actor id input w.tables (update s actor id input w).1.tables
  unfolding update
  update-Leaves actor id input w {x = x} h =
      let P : Result Monitor × World Tables → Type 0 =
        λ y. y.0 ≡ ok x → Leaves actor id input w.tables y.1.tables in
      guard_rule P w (Role.can_write actor.role) _ (update_permitted s actor id input)
        (λ may h'. update_permitted-Leaves actor id input w h') (λ h'. ground arith) h

  -- An update that enables a paused monitor leaves it paused: it is enabled, and no observed status is
  -- ever written to its row.
  pub update-paused :
      (actor : Actor) (id : ℕ) (input : UpdateInput) (w : World Tables) (r : Row) {x : Monitor}
      → find (is_row actor.org id) w.tables.monitors ≡ some r
      → is_paused r.monitor.last_status ≡ true
      → input.enabled ≡ some true
      → (update s actor id input w).0 ≡ ok x
      → (r' : Row) × (find (is_row actor.org id) (update s actor id input w).1.tables.monitors
          ≡ some r')
        × (r'.monitor.enabled ≡ true)
        × (takes_status id r' ≡ false)
  unfolding takes_status
  update-paused actor id input w r found is_paused_row enabling h =
      let (r0, r', before, after, status, enabled) = update-Leaves actor id input w h in
      let same : r0 ≡ r = ground arith in
      let still : is_paused r'.monitor.last_status ≡ true = ground arith in
      (r', after, enabled ∙ ap (λ o. or_bool o r0.monitor.enabled) enabling, ground arith)

set_enabled-rows :
    (org id by : ℕ) (enabled : Bool) (w : World Tables)
    → (set_enabled org id enabled by w).0 ≡ ok tt
    → (set_enabled org id enabled by w).1.tables.monitors
      ≡ edit_rows (is_row org id) (switched enabled by) w.tables.monitors
unfolding set_enabled edit_tx db
set_enabled-rows org id by enabled w h = ground arith

-- The row after a switch: it takes observed statuses exactly if it was enabled.
pub record IsSwitched (actor : Actor) (id : ℕ) (enabled : Bool) (m : Monitor) (t : Tables)
    : Type 0 where
  pub row : Row
  pub stored : find (is_row actor.org id) t.monitors ≡ some row
  pub returned : m ≡ row.monitor
  pub status : m.last_status ≡ enabled_status enabled
  pub observable : takes_status id row ≡ enabled

switched-IsSwitched :
    (actor : Actor) (id : ℕ) (enabled : Bool) (r : Row) (m : Monitor) (t : Tables)
    → is_row actor.org id r ≡ true
    → find (is_row actor.org id) t.monitors
      ≡ some (record r { monitor = switched enabled actor.user r.monitor })
    → m ≡ switched enabled actor.user r.monitor
    → IsSwitched actor id enabled m t
unfolding takes_status is_row
switched-IsSwitched actor id enabled r m t held stored same = record {
  row = record r { monitor = switched enabled actor.user r.monitor };
  stored = stored;
  returned = same;
  status = ground arith;
  observable = ground arith;
}

switch_permitted-IsSwitched :
    (actor : Actor) (id : ℕ) (enabled : Bool) (w : World Tables) {m : Monitor}
    → (switch_permitted actor id enabled w).0 ≡ ok m
    → IsSwitched actor id enabled m (switch_permitted actor id enabled w).1.tables
unfolding switch_permitted
switch_permitted-IsSwitched actor id enabled w {m = m} h =
    let (old, got, h1, e1) = bind-ok (get_by_id actor.org id) _ w h in
    let (r, found, same) = get_by_id-find actor.org id w got in
    let w1 = (get_by_id actor.org id w).1 in
    let (x2, set, h2, e2) = bind-ok (set_enabled actor.org id enabled actor.user) _ w1 h1 in
    let w2 = (set_enabled actor.org id enabled actor.user w1).1 in
    let (x3, said, h3, e3) = bind-ok (announce (switch_action enabled) actor id) _ w2 h2 in
    let w3 = (announce (switch_action enabled) actor id w2).1 in
    let (r', found', same') = get_by_id-find actor.org id w3 h3 in
    let rows =
      announce-keeps (switch_action enabled) actor id w2
      ∙ set_enabled-rows actor.org id actor.user enabled w1 set
      ∙ ap (λ t. edit_rows (is_row actor.org id) (switched enabled actor.user) t.monitors)
          (tables-get_by_id actor.org id w) in
    let stored =
      ap (find (is_row actor.org id)) rows
      ∙ find-edit_rows actor.org id (switched enabled actor.user) w.tables.monitors
          (λ x. (refl, refl)) found in
    switched-IsSwitched actor id enabled r m _
      (find-holds (is_row actor.org id) w.tables.monitors found)
      (ap (λ x. find (is_row actor.org id) x.1.tables.monitors) (e1 ∙ e2 ∙ e3)
        ∙ ap (λ t. find (is_row actor.org id) t.monitors) (tables-get_by_id actor.org id w3)
        ∙ stored)
      (same' ∙ ap (λ x. x.monitor) (some_injective (sym found' ∙ stored)))

-- Switching a monitor on or off takes effect: the stored row has the status for it, observed statuses
-- reach the row exactly if it was switched on, and the caller gets that row.
switch-IsSwitched :
    (actor : Actor) (id : ℕ) (enabled : Bool) (w : World Tables) {m : Monitor}
    → (switch actor id enabled w).0 ≡ ok m
    → IsSwitched actor id enabled m (switch actor id enabled w).1.tables
unfolding switch
switch-IsSwitched actor id enabled w {m = m} h =
    let P : Result Monitor × World Tables → Type 0 =
      λ y. y.0 ≡ ok m → IsSwitched actor id enabled m y.1.tables in
    guard_rule P w (Role.can_write actor.role) _ (switch_permitted actor id enabled)
      (λ may h'. switch_permitted-IsSwitched actor id enabled w h') (λ h'. ground arith) h
