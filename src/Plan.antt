-- ===== src/Plan.antt =====
-- Subscription plans and their limits: backend/internal/domain/plan/plan.go. The two snapshots that
-- the package swaps atomically are the record `Live`; a map is a function to `Option`, and a nil map
-- is the empty one. Limits, prices and the hourly rate are natural numbers, so `<= 0` is `== 0`.
pub mod Applied
pub mod Catalog
pub mod Pricing
mod Tests
pub mod Resolution
use beaconpulse.Prelude.{
  ℕ, Bool, true, false, ◌&&◌, ◌||◌, Option, none, some, List, [], ltb, ◌==◌, if◌then◌else◌, or_zero,
  is_some,
}
use beaconpulse.Text.{Text}
use beaconpulse.EmailMatch

-- plan.Plan; `other` is a string that names no tier.
pub data Plan : Type 0 where
  free starter pro pay_as_you_go : Plan
  other : Text → Plan

pub record Limits : Type 0 where
  pub max_monitors : ℕ
  pub min_interval_seconds : ℕ
  pub monthly_diagnoses : ℕ

abbrev pub no_limits : Limits
no_limits = record { max_monitors = 0; min_interval_seconds = 0; monthly_diagnoses = 0 }

abbrev limits_of : ℕ → ℕ → ℕ → Limits
limits_of m i d = record { max_monitors = m; min_interval_seconds = i; monthly_diagnoses = d }

abbrev pub default_limits : Plan → Option Limits
default_limits free = some (limits_of 10 60 0)
default_limits starter = some (limits_of 50 30 100)
default_limits pro = some (limits_of 500 10 1000)
default_limits pay_as_you_go = some (limits_of 500 30 0)
default_limits (other _) = none

abbrev pub default_prices : Plan → Option ℕ
default_prices free = some 0
default_prices starter = some 19
default_prices pro = some 79
default_prices _ = none

pub record Config : Type 0 where
  pub limits : Plan → Option Limits
  pub prices : Plan → Option ℕ
  pub hours_per_dollar : ℕ
  pub grants : List Text
  pub taglines : Plan → Option Text
  pub features : Plan → Option (List Text)

unfoldable pub default_config : Config
default_config = record {
  limits = default_limits;
  prices = default_prices;
  hours_per_dollar = 5;
  grants = [];
  taglines = λ _. none;
  features = λ _. none;
}

-- The package's `live` and `admins`.
pub record Live : Type 0 where
  pub config : Config
  pub admins : List Text

-- `init`
unfoldable pub initial : Live
initial = record { config = default_config; admins = [] }

-- `if _, ok := m[p]; !ok { m[p] = d }`
abbrev filled {ℓ} : {A : Type ℓ} → Option A → Option A → Option A
filled (some a) d = some a
filled none d = d

-- Apply: what is missing comes from the defaults, and the grants are normalised.
unfoldable pub apply : Config → Live → Live
unfolding default_config
apply c l = record l {
  config = record c {
    limits = λ p. filled (c.limits p) (default_config.limits p);
    prices = λ p. filled (c.prices p) (default_config.prices p);
    hours_per_dollar =
        if c.hours_per_dollar == 0 then default_config.hours_per_dollar else c.hours_per_dollar;
    grants = EmailMatch.normalize c.grants;
  };
}

unfoldable pub set_admins : List Text → Live → Live
set_admins list l = record l { admins = EmailMatch.normalize list }

unfoldable pub hours_per_dollar : Live → ℕ
hours_per_dollar l = l.config.hours_per_dollar

unfoldable pub price_of : Live → Plan → ℕ
price_of l p = or_zero (l.config.prices p) 0

unfoldable pub is_granted : Live → Text → Bool
is_granted l email = EmailMatch.match l.config.grants email

unfoldable pub is_admin : Live → Text → Bool
is_admin l email = EmailMatch.match l.admins email

abbrev pub valid : Plan → Bool
valid p = is_some (default_limits p)

abbrev pub subscribable : Plan → Bool
subscribable free = true
subscribable starter = true
subscribable pro = true
subscribable _ = false

abbrev pub is_paid_tier : Plan → Bool
is_paid_tier starter = true
is_paid_tier pro = true
is_paid_tier _ = false

-- Effective; `credit` is the balance in monitor-seconds.
unfoldable pub effective : Plan → Bool → ℕ → Plan
effective subscribed active credit =
    if active && is_paid_tier subscribed
    then subscribed
    else if ltb 0 credit
    then pay_as_you_go
    else free

unfoldable pub resolve : Live → Plan → Bool → ℕ → Text → Plan
resolve l subscribed active credit owner =
    if is_admin l owner || is_granted l owner then pro else effective subscribed active credit

unfoldable pub limits_for : Live → Plan → Limits
limits_for l p = elim (l.config.limits p) [
  | some limits ↦ limits
  | none ↦ or_zero (l.config.limits free) no_limits
]
