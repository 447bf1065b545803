-- ===== src/Billing/Webhooks.antt =====
-- What the events of the payment provider do to the ledger, delivered or polled, in any order and
-- under any faults.
use beaconpulse.Prelude.{
  ◌↔◌, suc, ℕ, ◌+◌, ◌*◌, ◌/◌, ◌^◌, ◌<◌, ◌≡◌, ◌≢◌, refl, ◌⊎◌, inl, inr, String, Bool, true, false,
  List, [], ◌∷◌, arith, ◌==◌, Bool-cases, length, All,
}
use beaconpulse.Prelude.Int.{◌≤ℤ◌, pos, int64, quot}
use beaconpulse.Text.Laws.{text_eq_refl}
use beaconpulse.World.{Result, ok, World, db, ◌>>=◌, record_audit}
use beaconpulse.World.Rules.{tables-bind, result-bind, db-keeps}
use beaconpulse.Plan
use beaconpulse.Plan.{Plan}
use beaconpulse.Ledger.{
  Tables, top_up_tx, subscription_tx, apply_top_up, apply_subscription, seen, credit_org,
  add_credit,
}
use beaconpulse.Ledger.Conservation.{IsSound, top_up_tx-IsSound, subscription_tx-IsSound}
use beaconpulse.Billing.{
  Kind, ignore, top_up, subscription, WebhookEvent, audited, seconds_bought, apply_kind,
  apply_webhook, counted, replay,
}

module _ (action : String) (org : ℕ) (b : Bool) (w : World Tables) where
  tables-audited : (audited action org b w).1.tables ≡ w.tables
  unfolding record_audit
  tables-audited = elim b as (λ c. (audited action org c w).1.tables ≡ w.tables) [
    | true ↦ unfold record_audit in ground arith
    | false ↦ refl
  ]

  audited-ok : (audited action org b w).0 ≡ ok b
  unfolding record_audit
  audited-ok = elim b as (λ c. (audited action org c w).0 ≡ ok c) [ true ↦ refl | false ↦ refl ]

-- What applying an event comes to: it is applied for the first time and the ledger has one more
-- event, with its id; or it is not reported as applied and nothing has changed.
abbrev pub Outcome : WebhookEvent → Tables → Result Bool → Tables → Type 0
Outcome ev t r t' =
    ((r ≡ ok true)
      × (seen ev.id t.events ≡ false)
      × (seen ev.id t'.events ≡ true)
      × (length t'.events ≡ suc (length t.events)))
    ⊎ ((r ≢ ok true) × (t' ≡ t))

top_up-Outcome :
    (live : Plan.Live) (ev : WebhookEvent) (t : Tables)
    → let (r, t') =
        top_up_tx ev.org (seconds_bought live ev.amount_cents) ev.amount_cents ev.id t in
      Outcome ev t r t'
unfolding top_up_tx credit_org add_credit seen
top_up-Outcome live ev t = ground (arith, text_eq_refl ev.id)

subscription-Outcome :
    (ev : WebhookEvent) (t : Tables)
    → let (r, t') = subscription_tx ev.org ev.plan ev.status ev.period_end ev.id t in
      Outcome ev t r t'
unfolding subscription_tx seen
subscription-Outcome ev t = ground (arith, text_eq_refl ev.id)

db-Outcome :
    (ev : WebhookEvent) (q : Tables → Result Bool × Tables) (w : World Tables)
    → Outcome ev w.tables (q w.tables).0 (q w.tables).1
    → Outcome ev w.tables (db q w).0 (db q w).1.tables
unfolding db
db-Outcome ev q w h = ground arith

module _ (action : String) (org : ℕ) (ev : WebhookEvent) (q : Tables → Result Bool × Tables)
    (w : World Tables) where
  audited-Outcome :
      Outcome ev w.tables (q w.tables).0 (q w.tables).1
      → let (r, w') = (db q >>= audited action org) w in Outcome ev w.tables r w'.tables
  audited-Outcome h =
      rw (tables-bind (db q) (audited action org) w (tables-audited action org)) (
        rw (result-bind (db q) (audited action org) w (audited-ok action org))
          (db-Outcome ev q w h))

  audited-IsSound :
      IsSound w.tables → IsSound (q w.tables).1 → IsSound ((db q >>= audited action org) w).1.tables
  audited-IsSound before after =
      rw (tables-bind (db q) (audited action org) w (tables-audited action org))
        (db-keeps IsSound q w before after)

not_applied : ◌≢◌ {A = Result Bool} (ok false) (ok true)
not_applied h = cc

apply_kind-Outcome :
    (live : Plan.Live) (kind : Kind) (ev : WebhookEvent) (w : World Tables)
    → let (r, w') = apply_kind live kind ev w in Outcome ev w.tables r w'.tables
unfolding apply_top_up apply_subscription
apply_kind-Outcome live ignore ev w = inr (not_applied, refl)
apply_kind-Outcome live top_up ev w = elim (Bool-cases (ev.org == 0)) [
  | inl e ↦ rw e (inr (not_applied, refl))
  | inr e ↦ rw e (audited-Outcome _ ev.org ev _ w (top_up-Outcome live ev w.tables))
]
apply_kind-Outcome live subscription ev w = elim (Bool-cases (ev.org == 0)) [
  | inl e ↦ rw e (inr (not_applied, refl))
  | inr e ↦ rw e (audited-Outcome _ ev.org ev _ w (subscription-Outcome ev w.tables))
]

-- An event is applied at most once, whether it is delivered, delivered again or polled, and whatever
-- faults strike: if it is reported as applied then its id was not in the ledger, is now, and the
-- ledger has one more event; in any other case the tables are unchanged.
pub apply_webhook-Outcome :
    (live : Plan.Live) (ev : WebhookEvent) (w : World Tables)
    → let (r, w') = apply_webhook live ev w in Outcome ev w.tables r w'.tables
unfolding apply_webhook
apply_webhook-Outcome live ev w = apply_kind-Outcome live ev.kind ev w

-- Reconcile's count is exact: replaying a list of events returns the number counted before and one
-- for each event by which the ledger has grown, also when some of them fail.
replay-counts :
    (live : Plan.Live) (evs : List WebhookEvent) (n : ℕ) (w : World Tables)
    → let (r, w') = replay live evs n w in
      (m : ℕ) × (r ≡ ok m) × (m + length w.tables.events ≡ n + length w'.tables.events)
unfolding replay
replay-counts live [] n w = (n, refl, refl)
replay-counts live (ev ∷ evs) n w =
    let (r, w') = apply_webhook live ev w in
    let (m, returned, total) = replay-counts live evs (n + counted r) w' in
    (m, returned, ground (arith, apply_webhook-Outcome live ev w))

-- The purchase fits Go's int64 while it is computed.
abbrev pub FitsInt64 : Plan.Live → WebhookEvent → Type 0
FitsInt64 live ev = ev.amount_cents * Plan.hours_per_dollar live * 3600 < 2 ^ 63

-- Without overflow the seconds are the exact price, rounded down.
seconds_bought_fitting :
    (live : Plan.Live) (amount : ℕ)
    → amount * Plan.hours_per_dollar live * 3600 < 2 ^ 63
    → seconds_bought live amount ≡ pos (amount * Plan.hours_per_dollar live * 3600 / 100)
unfolding seconds_bought int64 quot
seconds_bought_fitting live amount h = ground arith

quot-int64-at_most : (n : ℕ) → quot (int64 n) 100 ≤ℤ pos (n / 100)
unfolding quot int64
quot-int64-at_most n = ground arith

quot-int64-exact : (n : ℕ) → quot (int64 n) 100 ≡ pos (n / 100) → n < 2 ^ 63
unfolding quot int64
quot-int64-exact n h = ground arith

-- Whatever is paid, the seconds credited never exceed the exact price, and they are that price, rounded
-- down, exactly if it fits Go's int64 while it is computed: an overflow is never in the buyer's favour.
pub seconds_bought-exact_iff :
    (live : Plan.Live) (amount : ℕ)
    → let price = amount * Plan.hours_per_dollar live * 3600 in
      (seconds_bought live amount ≤ℤ pos (price / 100))
      × ((seconds_bought live amount ≡ pos (price / 100)) ↔ (price < 2 ^ 63))
unfolding seconds_bought
seconds_bought-exact_iff live amount = (
  quot-int64-at_most (amount * Plan.hours_per_dollar live * 3600),
  (
    quot-int64-exact (amount * Plan.hours_per_dollar live * 3600),
    seconds_bought_fitting live amount,
  ),
)

apply_kind-IsSound :
    (live : Plan.Live) (kind : Kind) (ev : WebhookEvent) (w : World Tables)
    → FitsInt64 live ev
    → IsSound w.tables
    → IsSound (apply_kind live kind ev w).1.tables
unfolding apply_top_up apply_subscription
apply_kind-IsSound live ignore ev w fits s = s
apply_kind-IsSound live top_up ev w fits s = elim (Bool-cases (ev.org == 0)) [
  | inl e ↦ rw e s
  | inr e ↦ rw e (
      audited-IsSound _ ev.org ev _ w s (
        rw (seconds_bought_fitting live ev.amount_cents fits)
          (top_up_tx-IsSound ev.org _ ev.amount_cents ev.id s)))
]
apply_kind-IsSound live subscription ev w fits s = elim (Bool-cases (ev.org == 0)) [
  | inl e ↦ rw e s
  | inr e ↦ rw e (
      audited-IsSound _ ev.org ev _ w s
        (subscription_tx-IsSound ev.org ev.plan ev.status ev.period_end ev.id s))
]

-- If the price of every event fits int64 while it is computed and the ledger is sound, then it is sound
-- after a replay of the events, whatever fails: no event id is twice in it, and no organization holds more
-- credit than its top-ups granted.
pub replay-IsSound :
    (live : Plan.Live) (evs : List WebhookEvent) (n : ℕ) (w : World Tables)
    → All (FitsInt64 live) evs
    → IsSound w.tables
    → IsSound (replay live evs n w).1.tables
unfolding replay
replay-IsSound live [] n w _ s = s
replay-IsSound live (ev ∷ evs) n w (fits, rest) s =
    let (r, w') = apply_webhook live ev w in
    replay-IsSound live evs (n + counted r) w' rest
      (unfold apply_webhook in apply_kind-IsSound live ev.kind ev w fits s)
