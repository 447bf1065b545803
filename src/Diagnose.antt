-- ===== src/Diagnose.antt =====
-- Paid diagnoses of a failing monitor: backend/internal/domain/diagnose/diagnose.go, over the ledger.
-- The prober, the model and the monitor lookup are other components or services: what each answers is
-- a parameter.
pub mod Outcome
mod Tests
use beaconpulse.Prelude.{
  ℕ, ◌*◌, String, Bool, true, false, not, Option, none, some, [], ◌∷◌, ltb, ◌==◌, if◌then◌else◌,
}
use beaconpulse.Text.{Text}
use beaconpulse.World.{
  AppError, Result, ok, err, M, ◌>>=◌, ◌>>◌, and_then, pure, throw, best_effort, guard,
  validation_error,
}
use beaconpulse.Plan
use beaconpulse.Plan.{Plan, free, pay_as_you_go}
use beaconpulse.Ledger
use beaconpulse.Ledger.{Tables}

pub record Actor : Type 0 where
  pub user : ℕ
  pub org : ℕ

abbrev pub default_cost_seconds : ℕ
default_cost_seconds = 5 * 60

abbrev is_free : Plan → Bool
is_free free = true
is_free _ = false

abbrev pub is_payg : Plan → Bool
is_payg pay_as_you_go = true
is_payg _ = false

-- The service's collaborators: `explain` is none when no model is configured, and returns none when
-- the model fails.
pub record Services (Evidence Analysis : Type 0) : Type 0 where
  pub target_for : ℕ → ℕ → Result (Text × Text)
  pub probe : Text → Text → Result Evidence
  pub explain : Option (Evidence → Option Analysis)
  pub cost_seconds : ℕ

-- NewService
unfoldable pub new_cost : ℕ → ℕ
new_cost cost = if cost == 0 then default_cost_seconds else cost

-- `analysis_error` says why the analysis is missing.
pub record Diagnosis (Evidence Analysis : Type 0) : Type 0 where
  pub evidence : Evidence
  pub analysis : Option Analysis
  pub analysis_error : Option String

abbrev paid_plan_required : AppError
paid_plan_required = validation_error "AI diagnosis is available on paid plans" ("plan" ∷ [])

abbrev not_enough_credit : AppError
not_enough_credit = validation_error "not enough credit for an AI diagnosis" ("credit" ∷ [])

abbrev limit_reached : AppError
limit_reached = validation_error "monthly AI diagnosis limit reached" ("plan" ∷ [])

abbrev meter_payg : ℕ → ℕ → M Tables ℕ
meter_payg cost org = do
  paid ← Ledger.charge_credit org cost
  guard paid not_enough_credit
  pure cost

abbrev meter_tier : ℕ → ℕ → ℕ → M Tables ℕ
meter_tier limit month_start org = do
  used ← Ledger.count_runs_since org month_start
  guard (ltb used limit) limit_reached
  pure 0

-- meterIn: what was charged, in monitor-seconds.
unfoldable pub meter_in : Plan.Live → ℕ → ℕ → ℕ → Plan → M Tables ℕ
meter_in live month_start cost org p =
    if is_payg p
    then meter_payg cost org
    else meter_tier (Plan.limits_for live p).monthly_diagnoses month_start org

-- refund, whose failure is ignored.
unfoldable pub give_back : ℕ → ℕ → M Tables (Unit {0})
give_back org charged w =
    if ltb 0 charged then (ok tt, (Ledger.refund_credit org charged w).1) else (ok tt, w)

-- What `analyze` returns: an analysis, or the reason that the client reads.
pub data Reading (Analysis : Type 0) : Type 0 where
  read : Analysis → Reading Analysis
  unread : String → Reading Analysis

abbrev reading_of : {Analysis : Type 0} → Option Analysis → Reading Analysis
reading_of (some a) = read a
reading_of none =
    unread
      "AI analysis is unavailable right now — you have not been charged, and the measurements below are still complete"

module _ {Evidence Analysis : Type 0} where
  unfoldable pub analyze : Option (Evidence → Option Analysis) → Evidence → Reading Analysis
  analyze none ev = unread "AI analysis is not configured on this deployment"
  analyze (some explain) ev = reading_of (explain ev)

  -- With the probes' measurements in hand: the run is recorded, and an answer that is missing is paid
  -- back. A run that could not be recorded is delivered all the same.
  unfoldable pub conclude :
      ℕ → Actor → ℕ → ℕ → Evidence → Reading Analysis → M Tables (Diagnosis Evidence Analysis)
  conclude now actor monitor charged ev (unread why) = do
    give_back actor.org charged
    pure (record { evidence = ev; analysis = none; analysis_error = some why })
  conclude now actor monitor charged ev (read a) = do
    recorded ← best_effort (Ledger.record_run now actor.org monitor charged)
    pure (record { evidence = ev; analysis = some a; analysis_error = none })

module _ {Evidence Analysis : Type 0} (services : Services Evidence Analysis) where
  unfoldable pub deliver :
      ℕ → Actor → ℕ → ℕ → Result Evidence → M Tables (Diagnosis Evidence Analysis)
  deliver now actor monitor charged (err e) = give_back actor.org charged >> throw e
  deliver now actor monitor charged (ok ev) =
      conclude now actor monitor charged ev (analyze services.explain ev)

  -- Run
  unfoldable pub run : Plan.Live → ℕ → ℕ → Actor → ℕ → M Tables (Diagnosis Evidence Analysis)
  run live month_start now actor monitor = do
    p ← Ledger.org_plan live actor.org
    guard (not (is_free p)) paid_plan_required
    (target, kind) ← (λ w. (services.target_for actor.org monitor, w))
    charged ← meter_in live month_start services.cost_seconds actor.org p
    deliver now actor monitor charged (services.probe target kind)
