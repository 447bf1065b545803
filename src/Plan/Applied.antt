-- ===== src/Plan/Applied.antt =====
-- What Apply guarantees of every configuration.
use beaconpulse.Prelude.{◌<◌, ◌≡◌, true, arith, is_some, not, ◌||◌}
use beaconpulse.Plan.{Plan, Config, Live, apply, valid, subscribable}

-- No tier lacks its limits, no tier on sale lacks its price, and a dollar buys some time.
pub record IsComplete (c : Config) : Type 0 where
  pub limited : (p : Plan) → not (valid p) || is_some (c.limits p) ≡ true
  pub priced : (p : Plan) → not (subscribable p) || is_some (c.prices p) ≡ true
  pub rate_positive : 0 < c.hours_per_dollar

-- Whatever configuration is applied, also an empty one, the live one is complete.
apply-IsComplete : (c : Config) (l : Live) → IsComplete (apply c l).config
unfolding apply
apply-IsComplete c l = record {
  limited = λ p. ground arith;
  priced = λ p. ground arith;
  rate_positive = ground arith;
}
