-- ===== src/Plan/Catalog.antt =====
-- The pricing page of backend/internal/domain/plan/plan.go: Catalog and the text of its bullets.
use beaconpulse.Prelude.{ℕ, ◌/◌, ◌%◌, List, [], ◌∷◌, ◌++◌, ltb, ◌==◌, if◌then◌else◌, or_zero, map}
use beaconpulse.Text.{Text, codes}
use beaconpulse.Text.Decimal.{itoa}
use beaconpulse.Plan.{Plan, free, starter, pro, Limits, no_limits, Config, Live}

abbrev default_taglines : Plan → Text
default_taglines free = codes "For a side project or kicking the tyres."
default_taglines starter = codes "For a small team running real services."
default_taglines pro = codes "For scale and priority response."
default_taglines _ = []

abbrev default_features : Plan → List Text
default_features free = codes "Telegram alerts" ∷ codes "Community support" ∷ []
default_features starter = codes "All alert channels" ∷ codes "Email support" ∷ []
default_features pro = codes "Priority alerting" ∷ codes "Priority support" ∷ []
default_features _ = []

abbrev name_of : Plan → Text
name_of free = codes "Free"
name_of starter = codes "Starter"
name_of pro = codes "Pro"
name_of _ = []

pub record Info : Type 0 where
  pub plan : Plan
  pub name : Text
  pub tagline : Text
  pub price_monthly : ℕ
  pub limits : Limits
  pub highlights : List Text
  pub features : List Text

abbrev if_empty : Text → Text → Text
if_empty [] d = d
if_empty (c ∷ s) d = c ∷ s

abbrev if_none_listed : List Text → List Text → List Text
if_none_listed [] d = d
if_none_listed (h ∷ hs) d = h ∷ hs

unfoldable pub tagline_of : Config → Plan → Text
tagline_of c p = if_empty (or_zero (c.taglines p) []) (default_taglines p)

unfoldable pub highlights_of : Config → Plan → List Text
highlights_of c p = if_none_listed (or_zero (c.features p) []) (default_features p)

-- 30 → "30s", 1800 → "30m", 3600 → "1h"
unfoldable pub interval_phrase : ℕ → Text
interval_phrase s =
    if s % 86400 == 0
    then itoa (s / 86400) ++ codes "d"
    else if s % 3600 == 0
    then itoa (s / 3600) ++ codes "h"
    else if s % 60 == 0
    then itoa (s / 60) ++ codes "m"
    else itoa s ++ codes "s"

unfoldable pub numeric_bullets : Limits → List Text
numeric_bullets l =
    (itoa l.max_monitors ++ codes " monitors")
    ∷ (interval_phrase l.min_interval_seconds ++ codes " minimum interval")
    ∷ (if ltb 0 l.monthly_diagnoses
        then (itoa l.monthly_diagnoses ++ codes " AI summaries / month") ∷ []
        else [])

unfoldable pub info_of : Config → Plan → Info
info_of c p =
    let l = or_zero (c.limits p) no_limits in
    let hl = highlights_of c p in
    record {
      plan = p;
      name = name_of p;
      tagline = tagline_of c p;
      price_monthly = or_zero (c.prices p) 0;
      limits = l;
      highlights = hl;
      features = numeric_bullets l ++ hl;
    }

unfoldable pub catalog : Live → List Info
catalog l = map (info_of l.config) (free ∷ starter ∷ pro ∷ [])
