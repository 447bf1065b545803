-- ===== src/Ledger/Conservation.antt =====
-- No event of the payment provider is applied twice, and no balance exceeds what was paid for.
use beaconpulse.Prelude.{ℕ, ◌≡◌, false, List, [], ◌∷◌, arith}
use beaconpulse.Prelude.Int.{ℤ, pos, ◌≤ℤ◌, +ℤ_parts}
use beaconpulse.Text.{Text}
use beaconpulse.Plan.{Plan}
use beaconpulse.Ledger.{
  Tables, Event, charge, balance, top_up_tx, subscription_tx, seen, burn, credit_org, add_credit,
  granted,
}

-- No two events of the ledger carry one id.
abbrev pub Distinct : List Event → Type 0
Distinct [] = Unit
Distinct (e ∷ es) = (seen e.event_id es ≡ false) × Distinct es

pub record IsSound (t : Tables) : Type 0 where
  pub distinct : Distinct t.events
  pub backed : (org : ℕ) → pos (balance t org) ≤ℤ granted org t.events

-- A top-up that took money in and did not overflow.
top_up_backed :
    (org a amount k : ℕ) (id : Text) (t : Tables)
    → pos (balance t k) ≤ℤ granted k t.events
    → pos (balance (top_up_tx org (pos a) amount id t).1 k)
      ≤ℤ granted k (top_up_tx org (pos a) amount id t).1.events
unfolding top_up_tx credit_org add_credit balance granted
top_up_backed org a amount k id t h = ground (arith, +ℤ_parts (pos a) (granted k t.events))

top_up-Distinct :
    (org : ℕ) (a : ℤ) (amount : ℕ) (id : Text) (t : Tables)
    → Distinct t.events
    → Distinct (top_up_tx org a amount id t).1.events
unfolding top_up_tx credit_org add_credit
top_up-Distinct org a amount id t h = ground arith

pub top_up_tx-IsSound :
    (org a amount : ℕ) (id : Text) {t : Tables}
    → IsSound t
    → IsSound (top_up_tx org (pos a) amount id t).1
top_up_tx-IsSound org a amount id {t} s = record {
  distinct = top_up-Distinct org (pos a) amount id t s.distinct;
  backed = λ k. top_up_backed org a amount k id t (s.backed k);
}

subscription_backed :
    (org : ℕ) (p : Plan) (status : Text) (period_end : ℕ) (id : Text) (t : Tables) (k : ℕ)
    → pos (balance t k) ≤ℤ granted k t.events
    → pos (balance (subscription_tx org p status period_end id t).1 k)
      ≤ℤ granted k (subscription_tx org p status period_end id t).1.events
unfolding subscription_tx balance granted
subscription_backed org p status period_end id t k h = ground arith

subscription-Distinct :
    (org : ℕ) (p : Plan) (status : Text) (period_end : ℕ) (id : Text) (t : Tables)
    → Distinct t.events
    → Distinct (subscription_tx org p status period_end id t).1.events
unfolding subscription_tx
subscription-Distinct org p status period_end id t h = ground arith

pub subscription_tx-IsSound :
    (org : ℕ) (p : Plan) (status : Text) (period_end : ℕ) (id : Text) {t : Tables}
    → IsSound t
    → IsSound (subscription_tx org p status period_end id t).1
subscription_tx-IsSound org p status period_end id {t} s = record {
  distinct = subscription-Distinct org p status period_end id t s.distinct;
  backed = λ k. subscription_backed org p status period_end id t k (s.backed k);
}

burn_backed :
    (elapsed k : ℕ) (t : Tables)
    → pos (balance t k) ≤ℤ granted k t.events
    → pos (balance (burn elapsed t).1 k) ≤ℤ granted k t.events
unfolding burn balance
burn_backed elapsed k t h = ground arith

pub burn-IsSound : (elapsed : ℕ) {t : Tables} → IsSound t → IsSound (burn elapsed t).1
unfolding burn
burn-IsSound elapsed {t} s = record {
  distinct = s.distinct;
  backed = λ k. burn_backed elapsed k t (s.backed k);
}

charge_backed :
    (org cost k : ℕ) (t : Tables)
    → pos (balance t k) ≤ℤ granted k t.events
    → pos (balance (charge org cost t).1 k) ≤ℤ granted k (charge org cost t).1.events
unfolding charge balance
charge_backed org cost k t h = ground arith

charge-events : (org cost : ℕ) (t : Tables) → (charge org cost t).1.events ≡ t.events
unfolding charge
charge-events org cost t = ground arith
