-- ===== src/Monitor/Service/Quota.antt =====
-- What a plan lets an organization create, and where a monitor may point.
use beaconpulse.Prelude.{
  String, ◌↔◌, ℕ, ◌+◌, ◌<◌, ◌≡◌, ◌∙◌, ap, inl, inr, Bool, true, false, not, ◌&&◌, Option, none,
  some, [], arith, filter, length, ◌==◌,
}
use beaconpulse.Text.{Text, is_empty}
use beaconpulse.World.{Result, ok, World, db, ◌>>◌, AppError, record_audit, guard}
use beaconpulse.World.Rules.{guard_rule, bind-ok, Result-cases}
use beaconpulse.Role
use beaconpulse.Plan
use beaconpulse.Plan.{Plan, Limits}
use beaconpulse.Monitor.{Monitor, Actor, Kind, heartbeat, github_actions}
use beaconpulse.Monitor.Store.{
  Tables, insert_monitor, count_by_org, project_exists, live_count, is_project, request_sync,
}
use beaconpulse.Monitor.Service.{
  normalize_and_validate, keep_masked_headers, Services, CreateInput, Token, Vetted, blocked,
  check_new, create, org_limits, assert_project, vet_target, validate_schedule,
  enforce_interval_floor, or_default, default_interval, default_timeout, of_result, of_check,
  announce, store_new, create_permitted, host_of, build, mint,
}

abbrev is_probed : Kind → Bool
is_probed heartbeat = false
is_probed github_actions = false
is_probed _ = true

abbrev is_blocked : Vetted → Bool
is_blocked blocked = true
is_blocked _ = false

module _ (s : Services) where
  org_limits-ok :
      (org : ℕ) (w : World Tables) {l : Limits}
      → (org_limits s org w).0 ≡ ok l
      → (p : Plan) × (s.plan_of org ≡ ok p) × (l ≡ Plan.limits_for s.live p)
  unfolding org_limits
  org_limits-ok org w h = elim (Result-cases (s.plan_of org)) [
    | inl (p, e) ↦ (p, e, ground arith)
    | inr (x, e) ↦ ground arith
  ]

  abbrev refuses : Option (Text → Vetted) → Text → Bool
  refuses none host = false
  refuses (some vet) host = not (is_empty host) && is_blocked (vet host)

  -- A target that is probed and whose host the guard blocks.
  abbrev pub is_refused : Kind → Text → Bool
  is_refused k target =
      is_probed k && not (is_empty target) && refuses s.guard (host_of s.parsers target)

  vet_target_lem :
      (k : Kind) (target : Text) (w : World Tables)
      → ((vet_target s k target w).1 ≡ w)
        × (((vet_target s k target w).0 ≡ ok tt) ↔ (is_refused k target ≡ false))
  unfolding vet_target
  vet_target_lem k target w = (ground arith, ground arith)

  -- What a creation has been checked against.
  pub record IsAdmitted (actor : Actor) (input : CreateInput) (t : Tables) (p : Plan) : Type 0 where
    pub planned : s.plan_of actor.org ≡ ok p
    pub owned : is_project actor.org input.project t ≡ true
    pub room : live_count actor.org t < (Plan.limits_for s.live p).max_monitors
    pub scheduled :
        validate_schedule
          (or_default input.interval_seconds default_interval)
          (or_default input.timeout_seconds default_timeout)
        ≡ none
    pub paced :
        enforce_interval_floor
          (or_default input.interval_seconds default_interval)
          (Plan.limits_for s.live p).min_interval_seconds
        ≡ none
    pub vetted : is_refused input.kind input.target ≡ false

  assert_project-ok :
      (org project : ℕ) (w : World Tables)
      → (assert_project org project w).0 ≡ ok tt
      → (is_project org project w.tables ≡ true)
        × ((assert_project org project w).1.tables ≡ w.tables)
  unfolding assert_project project_exists db
  assert_project-ok org project w h = (ground arith, ground arith)

  count_by_org-ok :
      (org : ℕ) (w : World Tables) {n : ℕ}
      → (count_by_org org w).0 ≡ ok n
      → (n ≡ live_count org w.tables) × ((count_by_org org w).1.tables ≡ w.tables)
  unfolding count_by_org db
  count_by_org-ok org w h = (ground arith, ground arith)

  org_limits-keeps : (org : ℕ) (w : World Tables) → (org_limits s org w).1 ≡ w
  unfolding org_limits
  org_limits-keeps org w = ground arith

  checks-ok :
      (a : Bool) (e : AppError) (k : Kind) (target : Text) (b c : Option AppError)
      (w : World Tables)
      → ((guard a e >> (vet_target s k target >> (of_check b >> of_check c))) w).0 ≡ ok tt
      → (a ≡ true)
        × (is_refused k target ≡ false)
        × (b ≡ none)
        × (c ≡ none)
        × (((guard a e >> (vet_target s k target >> (of_check b >> of_check c))) w).1 ≡ w)
  checks-ok a e k target b c w h = (
    ground (arith, vet_target_lem k target w),
    ground (arith, vet_target_lem k target w),
    ground (arith, vet_target_lem k target w),
    ground (arith, vet_target_lem k target w),
    ground (arith, vet_target_lem k target w),
  )

  check_new-IsAdmitted :
      (actor : Actor) (input : CreateInput) (w : World Tables)
      → (check_new s actor input w).0 ≡ ok tt
      → ((p : Plan) × IsAdmitted actor input w.tables p)
        × ((check_new s actor input w).1.tables ≡ w.tables)
  unfolding check_new
  check_new-IsAdmitted actor input w h =
      let (x1, ok1, h1, e1) = bind-ok (assert_project actor.org input.project) _ w h in
      let (owned, t1) = assert_project-ok actor.org input.project w ok1 in
      let w1 = (assert_project actor.org input.project w).1 in
      let (limits, ok2, h2, e2) = bind-ok (org_limits s actor.org) _ w1 h1 in
      let w2 = (org_limits s actor.org w1).1 in
      let (p, planned, l) = org_limits-ok actor.org w1 ok2 in
      let t2 = org_limits-keeps actor.org w1 in
      let (n, ok3, h3, e3) = bind-ok (count_by_org actor.org) _ w2 h2 in
      let (counted, t3) = count_by_org-ok actor.org w2 ok3 in
      let (room, vetted, scheduled, paced, t4) = checks-ok _ _ _ _ _ _ _ h3 in
      (
        (
          p,
          record {
            planned = planned;
            owned = owned;
            room = ground arith;
            scheduled = scheduled;
            paced = ground arith;
            vetted = vetted;
          },
        ),
        ap (λ x. x.1.tables) (e1 ∙ e2 ∙ e3)
            ∙ ap (λ x. x.tables) t4
            ∙ t3
            ∙ ap (λ x. x.tables) t2
            ∙ t1,
      )

pub announce-keeps :
    (action : String) (actor : Actor) (id : ℕ) (w : World Tables)
    → (announce action actor id w).1.tables.monitors ≡ w.tables.monitors
unfolding announce request_sync db record_audit
announce-keeps action actor id w = ground arith

live_count-monitors :
    (org : ℕ) (t t' : Tables) → t'.monitors ≡ t.monitors → live_count org t' ≡ live_count org t
unfolding live_count
live_count-monitors org t t' h =
    ap (λ rs. length (filter (λ r. r.monitor.org == org && not r.deleted) rs)) h

insert_monitor-live_count :
    (m : Monitor) (w : World Tables)
    → (db (insert_monitor m) w).0 ≡ ok tt
    → live_count m.org (db (insert_monitor m) w).1.tables ≡ live_count m.org w.tables + 1
unfolding db insert_monitor live_count
insert_monitor-live_count m w h = ground arith

module _ (s : Services) where
  mint-keeps : (k : Kind) (drawn : Option Text) (w : World Tables) → (mint s k drawn w).1 ≡ w
  unfolding mint
  mint-keeps k drawn w = ground arith

  of_result-keeps : {A : Type 0} (r : Result A) (w : World Tables) → (of_result r w).1 ≡ w
  of_result-keeps r w = ground arith

  store_new-count :
      (actor : Actor) (m : Monitor) (token : Option Token) (w : World Tables)
      {x : Monitor × Option Token}
      → (store_new actor m token w).0 ≡ ok x
      → live_count m.org (store_new actor m token w).1.tables ≡ live_count m.org w.tables + 1
  unfolding store_new
  store_new-count actor m token w h =
      let (x1, inserted, h1, e1) = bind-ok (db (insert_monitor m)) _ w h in
      let w1 = (db (insert_monitor m) w).1 in
      let (x2, said, h2, e2) = bind-ok (announce "monitor.created" actor m.id) _ w1 h1 in
      ap (λ x. live_count m.org x.1.tables) (e1 ∙ e2)
      ∙ live_count-monitors m.org _ _ (announce-keeps "monitor.created" actor m.id w1)
      ∙ insert_monitor-live_count m w inserted

  -- Adds one live monitor of the organization to what the tables held.
  abbrev AddsOne : Actor → CreateInput → World Tables → World Tables → Type 0
  AddsOne actor input w w' =
      ((p : Plan) × IsAdmitted s actor input w.tables p)
      × (live_count actor.org w'.tables ≡ live_count actor.org w.tables + 1)

  create_permitted-IsAdmitted :
      (drawn : Option Text) (id now : ℕ) (actor : Actor) (input : CreateInput) (w : World Tables)
      {x : Monitor × Option Token}
      → (create_permitted s drawn id now actor input w).0 ≡ ok x
      → AddsOne actor input w (create_permitted s drawn id now actor input w).1
  unfolding create_permitted build
  create_permitted-IsAdmitted drawn id now actor input w h =
      let (x1, checked, h1, e1) = bind-ok (check_new s actor input) _ w h in
      let (admitted, t1) = check_new-IsAdmitted s actor input w checked in
      let w1 = (check_new s actor input w).1 in
      let (kept, is_kept, h2, e2) =
        bind-ok (of_result (keep_masked_headers input.settings.headers [])) _ w1 h1 in
      let w2 = (of_result (keep_masked_headers input.settings.headers []) w1).1 in
      let valid =
        normalize_and_validate s.parsers input.kind input.target
          (record input.settings { headers = kept }) in
      let (good, is_good, h3, e3) = bind-ok (of_result valid) _ w2 h2 in
      let w3 = (of_result valid w2).1 in
      let (tokens, minted, h4, e4) = bind-ok (mint s input.kind drawn) _ w3 h3 in
      let w4 = (mint s input.kind drawn w3).1 in
      let m = build s (tokens.0) id now actor input (good.0) (good.1) (tokens.1) in
      (
        admitted,
        ap (λ x. live_count actor.org x.1.tables) (e1 ∙ e2 ∙ e3 ∙ e4)
            ∙ store_new-count actor m (tokens.1) w4 h4
            ∙ ap (λ v. live_count actor.org v.tables + 1)
                (mint-keeps input.kind drawn w3 ∙ of_result-keeps valid w2 ∙ of_result-keeps _ w1)
            ∙ ap (λ t. live_count actor.org t + 1) t1,
      )

  -- A creation that succeeds was by a member who may write, with a plan that has room for one more, at a
  -- pace that the plan allows, in a project of the organization, at a target that the guard does not
  -- block; and it adds exactly one live monitor to the organization.
  pub create-IsAdmitted :
      (drawn : Option Text) (id now : ℕ) (actor : Actor) (input : CreateInput) (w : World Tables)
      {x : Monitor × Option Token}
      → (create s drawn id now actor input w).0 ≡ ok x
      → (Role.can_write actor.role ≡ true)
        × AddsOne actor input w (create s drawn id now actor input w).1
  unfolding create
  create-IsAdmitted drawn id now actor input w {x = x} h =
      let P : Result (Monitor × Option Token) × World Tables → Type 0 =
        λ y. y.0 ≡ ok x → (Role.can_write actor.role ≡ true) × AddsOne actor input w (y.1) in
      guard_rule P w (Role.can_write actor.role) _ (create_permitted s drawn id now actor input)
        (λ may h'. (may, create_permitted-IsAdmitted drawn id now actor input w h'))
        (λ h'. ground arith) h
