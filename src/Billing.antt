-- ===== src/Billing.antt =====
-- The billing service: backend/internal/domain/billing/billing.go. The payment provider is not part
-- of the repository: what it answers is a parameter, and a call that a request may make twice is told
-- which attempt it is.
pub mod Webhooks
pub mod Checkouts
mod Tests
use beaconpulse.Prelude.{
  ℕ, ◌+◌, ◌-◌, ◌*◌, String, Bool, true, false, not, ◌&&◌, Option, none, some, List, [], ◌∷◌, ltb,
  ◌==◌, if◌then◌else◌,
}
use beaconpulse.Prelude.Int.{ℤ, pos, pos_part, int64, quot, ltb_ℤ}
use beaconpulse.Text.{Text, is_empty}
use beaconpulse.World.{
  AppError, Entry, Result, ok, err, M, ◌>>=◌, ◌>>◌, and_then, pure, throw, best_effort, guard,
  record_audit, forbidden, new_error, validation_error, internal_error,
}
use beaconpulse.Role
use beaconpulse.Role.{Role}
use beaconpulse.Plan
use beaconpulse.Plan.{Plan}
use beaconpulse.Ledger
use beaconpulse.Ledger.{Tables, State, is_active_status}

pub record Actor : Type 0 where
  pub user : ℕ
  pub org : ℕ
  pub role : Role
  pub email : Text

-- `customer_invalid` is ErrCustomerInvalid.
pub data Checkout : Type 0 where
  url : Text → Checkout
  customer_invalid : Checkout
  failed : AppError → Checkout

pub data Kind : Type 0 where
  ignore top_up subscription : Kind

pub record WebhookEvent : Type 0 where
  pub id : Text
  pub kind : Kind
  pub org : ℕ
  pub amount_cents : ℕ
  pub plan : Plan
  pub status : Text
  pub period_end : ℕ

-- billing.Payments; the first number is the attempt.
pub record Payments : Type 0 where
  pub configured : Plan → Bool
  pub ensure_customer : ℕ → ℕ → Text → Result Text
  pub subscription_checkout : ℕ → ℕ → Text → Plan → Checkout
  pub top_up_checkout : ℕ → ℕ → Text → ℕ → Checkout
  pub recent_top_ups : ℕ → Result (List WebhookEvent)
  pub portal_url : Text → Result Text
  pub delete_customer : Text → Result (Unit {0})

abbrev pub lift : {A : Type 0} → Result A → M Tables A
lift r w = (r, w)

unfoldable pub subscription_active : State → Bool
subscription_active st = is_active_status st.subscription_status

-- State.Effective
unfoldable pub effective_plan : Plan.Live → State → Plan
unfolding subscription_active
effective_plan live st =
    Plan.resolve live st.plan (subscription_active st) st.credit_seconds st.owner_email

abbrev paid_tier : Plan → Bool
paid_tier p = Plan.is_paid_tier p

unfoldable pub subscribable : Option Payments → Plan → Bool
subscribable none p = false
subscribable (some pay) p = paid_tier p && pay.configured p

pub record Overview : Type 0 where
  pub subscribed_plan : Plan
  pub effective : Plan
  pub subscription_status : Text
  pub period_end : ℕ
  pub credit_seconds : ℕ
  pub limits : Plan.Limits
  pub granted_credit_seconds : ℤ
  pub consumed_credit_seconds : ℤ
  pub diagnoses_used_this_month : ℕ

abbrev totals_or_zero : Result (ℤ × ℕ) → ℤ × ℕ
totals_or_zero (ok t) = t
totals_or_zero (err e) = (pos 0, 0)

-- `granted - remaining` where granted is the greater, so it is positive.
abbrev consumed_of : Result (ℤ × ℕ) → ℤ
consumed_of (ok (g, r)) = if ltb_ℤ (pos r) g then pos (pos_part g - r) else pos 0
consumed_of (err e) = pos 0

abbrev count_or_zero : Result ℕ → ℕ
count_or_zero (ok n) = n
count_or_zero (err e) = 0

unfoldable pub overview : Plan.Live → ℕ → Actor → M Tables Overview
overview live month_start actor = do
  st ← Ledger.state actor.org
  totals ← best_effort (Ledger.credit_totals actor.org)
  used ← best_effort (Ledger.count_runs_since actor.org month_start)
  pure (record {
    subscribed_plan = st.plan;
    effective = effective_plan live st;
    subscription_status = st.subscription_status;
    period_end = st.period_end;
    credit_seconds = st.credit_seconds;
    limits = Plan.limits_for live (effective_plan live st);
    granted_credit_seconds = (totals_or_zero totals).0;
    consumed_credit_seconds = consumed_of totals;
    diagnoses_used_this_month = count_or_zero used;
  })

abbrev not_configured : AppError
not_configured = validation_error "billing is not configured on this deployment" []

-- The service's `guard`, with the provider that it finds configured.
unfoldable pub guarded : Option Payments → Actor → M Tables Payments
guarded none actor = throw not_configured
guarded (some pay) actor =
    if Role.can_administer actor.role
    then pure pay
    else throw (new_error forbidden "only owners and admins can manage billing")

unfoldable pub portal_url : Option Payments → Actor → M Tables Text
portal_url p actor = do
  pay ← guarded p actor
  st ← Ledger.state actor.org
  guard (not (is_empty st.stripe_customer_id))
      (validation_error "no billing account yet — make a purchase first" [])
  lift (pay.portal_url st.stripe_customer_id)

abbrev drop_customer : Payments → State → M Tables (Unit {0})
drop_customer pay st =
    if is_empty st.stripe_customer_id
    then pure tt
    else lift (pay.delete_customer st.stripe_customer_id)

unfoldable pub close_account : Option Payments → ℕ → M Tables (Unit {0})
close_account none org = pure tt
close_account (some pay) org = do st ← Ledger.state org; drop_customer pay st

abbrev create_customer : Payments → ℕ → Actor → M Tables Text
create_customer pay attempt actor = do
  cust ← lift (pay.ensure_customer attempt actor.org actor.email)
  Ledger.set_customer_id actor.org cust
  pure cust

unfoldable pub ensure_customer : Payments → Actor → M Tables Text
ensure_customer pay actor = do
  st ← Ledger.state actor.org
  if is_empty st.stripe_customer_id then create_customer pay 0 actor else pure st.stripe_customer_id

abbrev settled : Checkout → M Tables Text
settled (url u) = pure u
settled customer_invalid = throw internal_error
settled (failed e) = throw e

abbrev retried : Checkout → M Tables Text → M Tables Text
retried (url u) again = pure u
retried customer_invalid again = again
retried (failed e) again = throw e

-- startCheckout: a stale customer is replaced, and the checkout is retried, once.
unfoldable pub start_checkout : Payments → Actor → (ℕ → Text → Checkout) → M Tables Text
start_checkout pay actor checkout = do
  cust ← ensure_customer pay actor
  retried (checkout 0 cust) (create_customer pay 1 actor >>= λ fresh. settled (checkout 1 fresh))

unfoldable pub start_top_up : Option Payments → Actor → ℕ → M Tables Text
start_top_up p actor amount = do
  pay ← guarded p actor
  guard (not (ltb amount 100)) (validation_error "amount too small" ("amount" ∷ []))
  start_checkout pay actor (λ attempt cust. pay.top_up_checkout attempt actor.org cust amount)

unfoldable pub start_subscription : Option Payments → Actor → Plan → M Tables Text
start_subscription p actor tier = do
  pay ← guarded p actor
  guard (paid_tier tier) (validation_error "not a subscribable plan" ("plan" ∷ []))
  guard (pay.configured tier)
      (validation_error "subscriptions are not set up for this plan yet" ("plan" ∷ []))
  start_checkout pay actor (λ attempt cust. pay.subscription_checkout attempt actor.org cust tier)

abbrev org_entry : String → ℕ → Entry
org_entry action org = record { action = action; org = org; user = none; resource = org }

abbrev audited : String → ℕ → Bool → M Tables Bool
audited action org true = record_audit (org_entry action org) >> pure true
audited action org false = pure false

-- `ev.AmountCents * int64(plan.HoursPerDollar()) * 3600 / 100`, in int64.
unfoldable pub seconds_bought : Plan.Live → ℕ → ℤ
seconds_bought live amount = quot (int64 (amount * Plan.hours_per_dollar live * 3600)) 100

abbrev apply_kind : Plan.Live → Kind → WebhookEvent → M Tables Bool
apply_kind live ignore ev = pure false
apply_kind live top_up ev = if ev.org == 0 then pure false else do
  applied ← Ledger.apply_top_up ev.org (seconds_bought live ev.amount_cents) ev.amount_cents ev.id
  audited "billing.credit_added" ev.org applied
apply_kind live subscription ev = if ev.org == 0 then pure false else do
  applied ← Ledger.apply_subscription ev.org ev.plan ev.status ev.period_end ev.id
  audited "billing.subscription_updated" ev.org applied

unfoldable pub apply_webhook : Plan.Live → WebhookEvent → M Tables Bool
apply_webhook live ev = apply_kind live ev.kind ev

abbrev counted : Result Bool → ℕ
counted (ok true) = 1
counted (ok false) = 0
counted (err e) = 0

-- The loop of Reconcile: an event that fails is passed over.
unfoldable pub replay : Plan.Live → List WebhookEvent → ℕ → M Tables ℕ
replay live [] repaired = pure repaired
replay live (ev ∷ evs) repaired =
    best_effort (apply_webhook live ev) >>= λ r. replay live evs (repaired + counted r)

unfoldable pub reconcile : Plan.Live → Option Payments → ℕ → M Tables ℕ
reconcile live none since = pure 0
reconcile live (some pay) since = do events ← lift (pay.recent_top_ups since); replay live events 0

unfoldable pub consume_credit : ℕ → M Tables (Unit {0})
consume_credit elapsed = Ledger.deduct_credit elapsed
