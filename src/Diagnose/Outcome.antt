-- ===== src/Diagnose/Outcome.antt =====
-- A diagnosis is paid for exactly when it is delivered.
use beaconpulse.Prelude.{
  ℕ, ◌-◌, ◌≤◌, ◌<◌, ◌≡◌, ◌≢◌, Bool-cases, refl, ◌∙◌, ◌⊎◌, inl, inr, Bool, true, false, ◌&&◌, List,
  [], arith, ◌==◌, if◌then◌else◌, is_some,
}
use beaconpulse.World.{AppError, Result, ok, err, World, db, Entry, ◌>>=◌}
use beaconpulse.Plan
use beaconpulse.Plan.{Plan, limits_for}
use beaconpulse.Ledger.{
  Tables, balance, read_plan, org_plan, charge, charge_credit, refund, refund_credit, credit_org,
  add_credit, count_runs_since, record_run, bigint_max,
}
use beaconpulse.Diagnose.{
  Actor, Services, Diagnosis, is_payg, is_free, meter_payg, meter_tier, meter_in, give_back,
  analyze, conclude, deliver, run,
}

abbrev price_of : ℕ → Result Plan → ℕ
price_of cost (ok p) = if is_payg p then cost else 0
price_of cost (err e) = 0

-- What one diagnosis costs an organization now, in monitor-seconds.
abbrev pub price : Plan.Live → ℕ → ℕ → Tables → ℕ
price live cost org t = price_of cost (read_plan live org t).0

abbrev pub delivered : {Evidence Analysis : Type 0} → Result (Diagnosis Evidence Analysis) → Bool
delivered (ok d) = is_some d.analysis
delivered (err e) = false

-- The world before any fault.
abbrev pub calm : Tables → List Entry → World Tables
calm t log = record { tables = t; faults = []; audit = log }

-- Giving back what was just charged restores every balance.
balance-give_back :
    (org cost k : ℕ) (t : Tables) (log : List Entry)
    → 0 < cost
    → (charge org cost t).0 ≡ ok true
    → balance t org ≤ bigint_max
    → balance (give_back org cost (calm (charge org cost t).1 log)).1.tables k ≡ balance t k
unfolding give_back refund_credit refund charge credit_org add_credit balance db
balance-give_back org cost k t log h paid room = ground arith

give_back_nothing : (org cost : ℕ) (w : World Tables) → cost ≡ 0 → (give_back org cost w).1 ≡ w
unfolding give_back
give_back_nothing org cost w h = ground arith

module _ {Evidence Analysis : Type 0} (services : Services Evidence Analysis) (now : ℕ)
    (actor : Actor) (monitor charged k : ℕ) (found : Result Evidence) (w : World Tables) where
  -- Without an answer the charge is given back; with one no balance changes any more.
  balance-deliver :
      let (r, w') = deliver services now actor monitor charged found w in
      balance w'.tables k ≡ (
        if delivered r
        then balance w.tables k
        else balance (give_back actor.org charged w).1.tables k)
  unfolding deliver conclude analyze record_run db balance
  balance-deliver = ground arith

Result-cases : {A : Type 0} (r : Result A) → ((a : A) × (r ≡ ok a)) ⊎ ((e : AppError) × (r ≡ err e))
Result-cases (ok a) = inl (a, refl)
Result-cases (err e) = inr (e, refl)

org_plan-calm :
    (live : Plan.Live) (org : ℕ) (t : Tables) (log : List Entry)
    → org_plan live org (calm t log) ≡ ((read_plan live org t).0, calm t log)
unfolding org_plan read_plan db
org_plan-calm live org t log = ground arith

-- A charge that goes through is one that the balance covers.
charge_ok :
    (org cost k : ℕ) (t : Tables)
    → (charge org cost t).0 ≡ ok true
    → balance (charge org cost t).1 k ≡ (if k == org then balance t k - cost else balance t k)
unfolding charge balance
charge_ok org cost k t h = ground arith

charge_refused :
    (org cost : ℕ) (t : Tables)
    → (charge org cost t).0 ≢ ok true
    → charge org cost t ≡ (ok false, t)
unfolding charge
charge_refused org cost t h = ground arith

module _ {Evidence Analysis : Type 0} (services : Services Evidence Analysis) (now month_start : ℕ)
    (actor : Actor) (monitor k : ℕ) (found : Result Evidence) (t : Tables) (log : List Entry) where
  -- Paying from credit and delivering.
  balance-payg :
      (cost : ℕ)
      → balance t actor.org ≤ bigint_max
      → let (r, w') =
          (meter_payg cost actor.org >>= λ c. deliver services now actor monitor c found)
            (calm t log) in
        balance w'.tables k
        ≡ (if delivered r && k == actor.org then balance t k - cost else balance t k)
  unfolding charge_credit db
  balance-payg cost room = ground (
    arith,
    charge_ok actor.org cost k t,
    charge_refused actor.org cost t,
    balance-deliver services now actor monitor cost k found (calm t log),
    balance-deliver services now actor monitor cost k found (calm (charge actor.org cost t).1 log),
    give_back_nothing actor.org cost (calm t log),
    balance-give_back actor.org cost k t log,
  )

  balance-tier :
      (limit : ℕ)
      → let (r, w') =
          (meter_tier limit month_start actor.org >>= λ c.
          deliver services now actor monitor c found)
            (calm t log) in
        balance w'.tables k ≡ balance t k
  unfolding count_runs_since db
  balance-tier limit = ground (
    arith,
    balance-deliver services now actor monitor 0 k found (calm t log),
    give_back_nothing actor.org 0 (calm t log),
  )

  unchanged_either_way : (d : Bool) (b : ℕ) → b ≡ (if d then b - 0 else b)
  unchanged_either_way d b = ground arith

  balance-metered :
      (live : Plan.Live) (cost : ℕ) (p : Plan)
      → balance t actor.org ≤ bigint_max
      → let (r, w') =
          (meter_in live month_start cost actor.org p >>= λ c.
          deliver services now actor monitor c found)
            (calm t log) in
        balance w'.tables k ≡ (
          if delivered r && k == actor.org
          then balance t k - (if is_payg p then cost else 0)
          else balance t k)
  unfolding meter_in
  balance-metered live cost p room = elim (Bool-cases (is_payg p)) [
    | inl e ↦ rw e (balance-payg cost room)
    | inr e ↦
        rw e (
          balance-tier (limits_for live p).monthly_diagnoses ∙ unchanged_either_way _ (balance t k))
  ]

module _ {Evidence Analysis : Type 0} (services : Services Evidence Analysis) (live : Plan.Live)
    (month_start now : ℕ) (actor : Actor) (monitor : ℕ) (t : Tables) (log : List Entry) where
  -- When no fault strikes, a diagnosis that is delivered takes its price from the balance of the
  -- organization, and no more than the balance; on every other path, refused, failed or without an
  -- analysis, every balance is what it was. No other organization's balance ever changes. The balance
  -- fits the database's bigint.
  pub balance-run :
      (k : ℕ)
      → balance t actor.org ≤ bigint_max
      → let (r, w') = run services live month_start now actor monitor (calm t log) in
        balance w'.tables k ≡ (
          if delivered r && k == actor.org
          then balance t k - price live services.cost_seconds actor.org t
          else balance t k)
  unfolding run
  balance-run k room = elim (Result-cases (read_plan live actor.org t).0) [
    | inl (p, e) ↦
        rw (org_plan-calm live actor.org t log, e)
          (elim (Bool-cases (is_free p)) [
            | inl f ↦ rw f
            | inr f ↦ rw f (elim (Result-cases (services.target_for actor.org monitor)) [
              | inl (target, g) ↦ rw g (
                  balance-metered services now month_start actor monitor k
                    (services.probe target.0 target.1) t log live services.cost_seconds p room)
              | inr (x, g) ↦ rw g
            ])
          ])
    | inr (x, e) ↦ rw (org_plan-calm live actor.org t log, e)
  ]
