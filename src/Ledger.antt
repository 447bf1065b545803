-- ===== src/Ledger.antt =====
-- The billing tables and their statements: backend/internal/adapter/postgres/billing_repo.go and
-- org_plan_repo.go. A table with a primary key that the statements look up is a function; times are
-- seconds, 0 the zero time.
mod Rows
pub mod Laws
pub mod Tests
pub mod Conservation
pub use Rows.{Org, User, EventKind, topup, subscription, Event, Run, Probed, Tables}
use beaconpulse.Prelude.{
  ℕ, suc, ◌+◌, ◌-◌, ◌*◌, ◌^◌, Bool, true, false, not, ◌&&◌, ◌||◌, Option, none, some, List, [], ◌∷◌,
  ltb, leb, ◌==◌, if◌then◌else◌, or_zero, is_some, any, length, filter,
}
use beaconpulse.Prelude.Int.{ℤ, pos, negsuc, ◌+ℤ◌}
use beaconpulse.Text.{Text, codes, text_eq}
use beaconpulse.World.{AppError, Result, ok, err, M, pure, db, new_error, not_found, internal_error}
use beaconpulse.Plan
use beaconpulse.Plan.{Plan}

abbrev if_live : Option Org → Option Org
if_live none = none
if_live (some o) = if o.deleted then none else some o

-- `WHERE id = $1 AND deleted_at IS NULL`
abbrev pub live_org : Tables → ℕ → Option Org
live_org t org = if_live (t.orgs org)

abbrev pub set_org : ℕ → Org → Tables → Tables
set_org org o t = record t { orgs = λ k. if k == org then some o else t.orgs k }

abbrev is_live_owner : ℕ → User → Bool
is_live_owner org u = u.org == org && u.is_owner && not u.deleted

-- `ORDER BY created_at LIMIT 1`
unfoldable pub earliest : List User → Option User
earliest [] = none
earliest (u ∷ us) = elim (earliest us) [
  | none ↦ some u
  | some v ↦ if leb u.created_at v.created_at then some u else some v
]

abbrev email_or_blank : Option User → Text
email_or_blank none = []
email_or_blank (some u) = u.email

unfoldable pub owner_email : List User → ℕ → Text
owner_email us org = email_or_blank (earliest (filter (is_live_owner org) us))

-- billing.State
pub record State : Type 0 where
  pub plan : Plan
  pub subscription_status : Text
  pub period_end : ℕ
  pub stripe_customer_id : Text
  pub credit_seconds : ℕ
  pub owner_email : Text

abbrev pub org_not_found : AppError
org_not_found = new_error not_found "organization not found"

unfoldable pub read_state : ℕ → Tables → Result State × Tables
read_state org t = elim (live_org t org) [
  | none ↦ (err org_not_found, t)
  | some o ↦ (
    ok (record {
      plan = o.plan;
      subscription_status = or_zero o.status [];
      period_end = or_zero o.period_end 0;
      stripe_customer_id = or_zero o.customer [];
      credit_seconds = o.credit;
      owner_email = owner_email t.users org;
    }),
    t,
  )
]

unfoldable pub state : ℕ → M Tables State
state org = db (read_state org)

-- OrgPlanRepository.Plan
unfoldable pub is_active_status : Text → Bool
is_active_status s = text_eq s (codes "active") || text_eq s (codes "trialing")

abbrev pub status_active : Option Text → Bool
status_active none = false
status_active (some s) = is_active_status s

unfoldable pub read_plan : Plan.Live → ℕ → Tables → Result Plan × Tables
read_plan live org t = elim (live_org t org) [
  | none ↦ (err org_not_found, t)
  | some o ↦
      (ok (Plan.resolve live o.plan (status_active o.status) o.credit (owner_email t.users org)), t)
]

unfoldable pub org_plan : Plan.Live → ℕ → M Tables Plan
org_plan live org = db (read_plan live org)

unfoldable pub write_customer : ℕ → Text → Tables → Result (Unit {0}) × Tables
write_customer org cust t = elim (live_org t org) [
  | none ↦ (err org_not_found, t)
  | some o ↦ (ok tt, set_org org (record o { customer = some cust }) t)
]

unfoldable pub set_customer_id : ℕ → Text → M Tables (Unit {0})
set_customer_id org cust = db (write_customer org cust)

abbrev pub bigint_max : ℕ
bigint_max = 2 ^ 63 - 1

-- `credit_seconds + $2`: the column is a bigint with `CHECK (credit_seconds >= 0)`.
unfoldable pub add_credit : ℕ → ℤ → Option ℕ
add_credit c (pos a) = if leb (c + a) bigint_max then some (c + a) else none
add_credit c (negsuc n) = if leb (suc n) c then some (c - suc n) else none

-- The update of ApplyTopUp; no row is no error, and a violated constraint is one.
unfoldable pub credit_org : ℕ → ℤ → Tables → Option Tables
credit_org org add t = elim (live_org t org) [
  | none ↦ some t
  | some o ↦ elim (add_credit o.credit add) [
    | none ↦ none
    | some c ↦ some (set_org org (record o { credit = c }) t)
  ]
]

-- `stripe_event_id` is unique.
unfoldable pub seen : Text → List Event → Bool
seen id es = any (λ e. text_eq e.event_id id) es

abbrev insert_event : Event → Tables → Tables
insert_event e t = record t { events = e ∷ t.events }

abbrev commit_or_fail : Tables → Option Tables → Result Bool × Tables
commit_or_fail t none = (err internal_error, t)
commit_or_fail t (some t') = (ok true, t')

-- The transaction of ApplyTopUp: the event's organization must exist, and a failed update undoes the
-- insertion.
unfoldable pub top_up_tx : ℕ → ℤ → ℕ → Text → Tables → Result Bool × Tables
top_up_tx org add amount id t =
    if seen id t.events
    then (ok false, t)
    else if is_some (t.orgs org)
    then commit_or_fail t (
        credit_org org add (
          insert_event
            (record {
              event_id = id;
              org = org;
              kind = topup;
              amount_cents = amount;
              credit_added = add;
            })
            t))
    else (err internal_error, t)

unfoldable pub apply_top_up : ℕ → ℤ → ℕ → Text → M Tables Bool
apply_top_up org add amount id = db (top_up_tx org add amount id)

abbrev stored_tier : Plan → Plan
stored_tier p = if Plan.subscribable p then p else Plan.free

abbrev if_set : ℕ → Option ℕ
if_set t = if t == 0 then none else some t

abbrev write_subscription : ℕ → Plan → Text → ℕ → Tables → Tables
write_subscription org p status period_end t = elim (live_org t org) [
  | none ↦ t
  | some o ↦
      set_org org
        (record o { plan = stored_tier p; status = some status; period_end = if_set period_end }) t
]

unfoldable pub subscription_tx : ℕ → Plan → Text → ℕ → Text → Tables → Result Bool × Tables
subscription_tx org p status period_end id t =
    if seen id t.events
    then (ok false, t)
    else if is_some (t.orgs org)
    then (
      ok true,
      write_subscription org p status period_end (
          insert_event
            (record {
              event_id = id;
              org = org;
              kind = subscription;
              amount_cents = 0;
              credit_added = pos 0;
            })
            t),
    )
    else (err internal_error, t)

unfoldable pub apply_subscription : ℕ → Plan → Text → ℕ → Text → M Tables Bool
apply_subscription org p status period_end id = db (subscription_tx org p status period_end id)

-- `count(*) … WHERE enabled AND deleted_at IS NULL` of one organization.
unfoldable pub enabled_count : List Probed → ℕ → ℕ
enabled_count ms org = length (filter (λ m. m.org == org && m.enabled && not m.deleted) ms)

-- `GREATEST(0, credit_seconds - $1 * cnt)` for the live organizations with credit; one with no
-- enabled monitor has no row in the join, and keeps its balance.
abbrev burn_org : ℕ → ℕ → Option Org → Option Org
burn_org elapsed cnt none = none
burn_org elapsed cnt (some o) =
    if not o.deleted && ltb 0 o.credit && ltb 0 cnt
    then some (record o { credit = o.credit - elapsed * cnt })
    else some o

unfoldable pub burn : ℕ → Tables → Result (Unit {0}) × Tables
burn elapsed t =
    (ok tt, record t { orgs = λ k. burn_org elapsed (enabled_count t.monitors k) (t.orgs k) })

unfoldable pub deduct_credit : ℕ → M Tables (Unit {0})
deduct_credit elapsed = if elapsed == 0 then pure tt else db (burn elapsed)

-- `… WHERE id = $1 AND deleted_at IS NULL AND credit_seconds >= $2`, and whether it met a row.
unfoldable pub charge : ℕ → ℕ → Tables → Result Bool × Tables
charge org cost t = elim (live_org t org) [
  | none ↦ (ok false, t)
  | some o ↦
      if leb cost o.credit
      then (ok true, set_org org (record o { credit = o.credit - cost }) t)
      else (ok false, t)
]

unfoldable pub charge_credit : ℕ → ℕ → M Tables Bool
charge_credit org cost = if cost == 0 then pure true else db (charge org cost)

abbrev done_or_fail : Tables → Option Tables → Result (Unit {0}) × Tables
done_or_fail t none = (err internal_error, t)
done_or_fail t (some t') = (ok tt, t')

unfoldable pub refund : ℕ → ℕ → Tables → Result (Unit {0}) × Tables
refund org cost t = done_or_fail t (credit_org org (pos cost) t)

unfoldable pub refund_credit : ℕ → ℕ → M Tables (Unit {0})
refund_credit org cost = if cost == 0 then pure tt else db (refund org cost)

unfoldable pub count_runs_since : ℕ → ℕ → M Tables ℕ
count_runs_since org since =
    db (λ t. (ok (length (filter (λ r. r.org == org && leb since r.created_at) t.runs)), t))

unfoldable pub record_run : ℕ → ℕ → ℕ → ℕ → M Tables (Unit {0})
record_run now org monitor cost = db (λ t.
    if is_some (t.orgs org)
    then (
      ok tt,
      record t {
        runs =
            record { org = org; monitor = monitor; credit_seconds = cost; created_at = now }
            ∷ t.runs;
      },
    )
    else (err internal_error, t))

abbrev is_topup : EventKind → Bool
is_topup topup = true
is_topup subscription = false

-- `sum(credit_added_seconds) … WHERE org_id = $1 AND type = 'topup'`
unfoldable pub granted : ℕ → List Event → ℤ
granted org [] = pos 0
granted org (e ∷ es) =
    let rest = granted org es in
    if e.org == org && is_topup e.kind then e.credit_added +ℤ rest else rest

abbrev credit_or_zero : Option Org → ℕ
credit_or_zero none = 0
credit_or_zero (some o) = o.credit

-- The balance of a live organization, 0 if there is none.
unfoldable pub balance : Tables → ℕ → ℕ
balance t org = credit_or_zero (live_org t org)

unfoldable pub credit_totals : ℕ → M Tables (ℤ × ℕ)
credit_totals org = db (λ t. (ok (granted org t.events, balance t org), t))
