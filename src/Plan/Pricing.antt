-- ===== src/Plan/Pricing.antt =====
-- The pricing page tells the truth about what is enforced.
use beaconpulse.Prelude.{
  ℕ, ◌*◌, ◌/◌, ◌%◌, or_zero, is_some, ap, leb, not, ◌||◌, ◌≡◌, refl, true, ◌++◌, arith, ◌==◌, All,
  Bool-cases, inl, inr,
}
use beaconpulse.Text.{Text, codes}
use beaconpulse.Text.Decimal.{itoa}
use beaconpulse.Plan.{Plan, free, starter, pro, Live, no_limits, limits_for, price_of}
use beaconpulse.Plan.Applied.{IsComplete}
use beaconpulse.Plan.Catalog.{
  Info, interval_phrase, numeric_bullets, highlights_of, info_of, catalog,
}

pub data TimeUnit : Type 0 where
  second minute hour day : TimeUnit

abbrev pub letter : TimeUnit → Text
letter second = codes "s"
letter minute = codes "m"
letter hour = codes "h"
letter day = codes "d"

abbrev pub seconds : TimeUnit → ℕ
seconds second = 1
seconds minute = 60
seconds hour = 3600
seconds day = 86400

-- A phrase for a number of seconds: a count of some unit, which is that many seconds exactly, and
-- no longer unit divides them.
pub record IsPhrase (s : ℕ) (t : Text) : Type 0 where
  pub count : ℕ
  pub unit : TimeUnit
  pub printed : t ≡ itoa count ++ letter unit
  pub exact : count * seconds unit ≡ s
  pub longest : (v : TimeUnit) → leb (seconds v) (seconds unit) || not (s % seconds v == 0) ≡ true

-- The interval shown on a pricing card names exactly the enforced number of seconds, in the longest
-- of days, hours, minutes and seconds that divides it.
interval_phrase-IsPhrase : (s : ℕ) → IsPhrase s (interval_phrase s)
unfolding interval_phrase
interval_phrase-IsPhrase s = elim (Bool-cases (s % 86400 == 0)) [
  | inl d ↦ record {
    count = s / 86400;
    unit = day;
    printed = rw d;
    exact = ground arith;
    longest = λ v. ground arith;
  }
  | inr d ↦ elim (Bool-cases (s % 3600 == 0)) [
    | inl h ↦ record {
      count = s / 3600;
      unit = hour;
      printed = rw (d, h);
      exact = ground arith;
      longest = λ v. ground arith;
    }
    | inr h ↦ elim (Bool-cases (s % 60 == 0)) [
      | inl m ↦ record {
        count = s / 60;
        unit = minute;
        printed = rw (d, h, m);
        exact = ground arith;
        longest = λ v. ground arith;
      }
      | inr m ↦ record {
        count = s;
        unit = second;
        printed = rw (d, h, m);
        exact = ground arith;
        longest = λ v. ground arith;
      }
    ]
  ]
]

abbrev pub IsEnforced : Live → Info → Type 0
IsEnforced l i =
    (i.limits ≡ limits_for l i.plan)
    × (i.price_monthly ≡ price_of l i.plan)
    × (i.features ≡ numeric_bullets (limits_for l i.plan) ++ i.highlights)

limits_for_listed :
    (l : Live) (p : Plan)
    → is_some (l.config.limits p) ≡ true
    → or_zero (l.config.limits p) no_limits ≡ limits_for l p
unfolding limits_for
limits_for_listed l p h = ground arith

info_of-IsEnforced :
    (l : Live) (p : Plan) → is_some (l.config.limits p) ≡ true → IsEnforced l (info_of l.config p)
unfolding info_of price_of
info_of-IsEnforced l p h =
    let e = limits_for_listed l p h in
    (e, refl, ap (λ k. numeric_bullets k ++ highlights_of l.config p) e)

-- For a complete configuration each card of the pricing page shows the limits that are enforced for
-- its plan and the price that is charged for it, and its first bullets are generated from those
-- limits.
catalog-IsEnforced : (l : Live) → IsComplete l.config → All (IsEnforced l) (catalog l)
unfolding catalog
catalog-IsEnforced l c =
    let f = info_of-IsEnforced l free (c.limited free) in
    let s = info_of-IsEnforced l starter (c.limited starter) in
    let p = info_of-IsEnforced l pro (c.limited pro) in (f, (s, (p, tt)))
