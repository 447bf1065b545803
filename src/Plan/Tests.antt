-- ===== src/Plan/Tests.antt =====
-- Runs of the plans, and their laws at concrete inputs.
use beaconpulse.Prelude.{◌≡◌, refl, ◌↔◌, true, false, none, [], ◌∷◌}
use beaconpulse.Text.{codes}
use beaconpulse.Text.Decimal.{itoa}
use beaconpulse.Plan.{free, starter, pro, pay_as_you_go, other, Config, initial, resolve, effective}
use beaconpulse.Plan.Resolution.{Reason, resolve-eq_iff}
use beaconpulse.Plan.Catalog.{interval_phrase}

-- A configuration that sets nothing but a grant.
abbrev bare : Config
bare = record {
  limits = λ _. none;
  prices = λ _. none;
  hours_per_dollar = 0;
  grants = codes "Partner.com" ∷ [];
  taglines = λ _. none;
  features = λ _. none;
}

phrases :
    (interval_phrase 30 ≡ codes "30s")
    × (interval_phrase 1800 ≡ codes "30m")
    × (interval_phrase 3600 ≡ codes "1h")
    × (interval_phrase 172800 ≡ codes "2d")
    × (interval_phrase 90 ≡ codes "90s")
unfolding interval_phrase itoa
phrases = (refl, refl, refl, refl, refl)

fallbacks :
    (effective starter true 0 ≡ starter)
    × (effective pro false 5 ≡ pay_as_you_go)
    × (effective free true 0 ≡ free)
    × (effective (other (codes "gold")) true 0 ≡ free)
unfolding effective
fallbacks = (refl, refl, refl, refl)

resolve-eq_iff_example :
    (resolve initial starter false 7 (codes "a@b.c") ≡ pay_as_you_go)
    ↔ Reason initial starter false 7 (codes "a@b.c") pay_as_you_go
resolve-eq_iff_example = resolve-eq_iff initial starter false 7 (codes "a@b.c") pay_as_you_go
