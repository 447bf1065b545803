-- ===== src/Billing/Tests.antt =====
-- Payments delivered twice, polled and failing: runs, and the laws at concrete inputs.
use beaconpulse.Prelude.{
  ℕ, ◌↔◌, ◌^◌, ◌/◌, ◌*◌, ◌/◌, ◌<◌, ◌≡◌, refl, true, false, none, [], ◌∷◌, arith,
}
use beaconpulse.Prelude.Int.{◌≤ℤ◌, int64, quot, pos, int64, quot}
use beaconpulse.Text.{codes, text_eq}
use beaconpulse.World.{World, ok, db, record_audit}
use beaconpulse.Role.{Role}
use beaconpulse.Plan
use beaconpulse.Plan.{free, starter, initial}
use beaconpulse.Ledger.{
  Tables, balance, apply_top_up, top_up_tx, seen, credit_org, add_credit, granted,
}
use beaconpulse.Ledger.Tests.{two_orgs}
use beaconpulse.Ledger.Conservation.{IsSound}
use beaconpulse.Billing.{
  Actor, Payments, url, top_up, WebhookEvent, apply_webhook, replay, seconds_bought,
}
use beaconpulse.Billing.Webhooks.{
  Outcome, apply_webhook-Outcome, replay-IsSound, seconds_bought-exact_iff,
}

abbrev dollar : WebhookEvent
dollar = record {
  id = codes "evt_1";
  kind = top_up;
  org = 1;
  amount_cents = 100;
  plan = free;
  status = [];
  period_end = 0;
}

abbrev empty_tables : Tables
empty_tables = record two_orgs { orgs = λ _. none; events = [] }

-- The second statement fails.
abbrev flaky : World Tables
flaky = record { tables = two_orgs; faults = false ∷ false ∷ true ∷ []; audit = [] }

replayed :
    ((replay initial (dollar ∷ dollar ∷ dollar ∷ []) 0 flaky).0 ≡ ok 1)
    × (balance (replay initial (dollar ∷ dollar ∷ dollar ∷ []) 0 flaky).1.tables 1 ≡ 18700)
unfolding replay apply_webhook apply_top_up top_up_tx seen credit_org add_credit balance db
    record_audit seconds_bought int64 quot text_eq initial Plan.hours_per_dollar Plan.default_config
replayed = (refl, refl)

apply_webhook-Outcome_example :
    let (r, w') = apply_webhook initial dollar flaky in Outcome dollar two_orgs r w'.tables
apply_webhook-Outcome_example = apply_webhook-Outcome initial dollar flaky

blank : World Tables
blank = record { tables = empty_tables; faults = []; audit = [] }

blank-IsSound : IsSound blank.tables
unfolding blank balance granted
blank-IsSound = record { distinct = tt; backed = λ org. omega arith }

dollar_fits : 100 * Plan.hours_per_dollar initial * 3600 < 9223372036854775808
unfolding initial Plan.hours_per_dollar Plan.default_config
dollar_fits = omega arith

replay-IsSound_example : IsSound (replay initial (dollar ∷ dollar ∷ []) 0 blank).1.tables
replay-IsSound_example =
    replay-IsSound initial (dollar ∷ dollar ∷ []) 0 blank (dollar_fits, (dollar_fits, tt))
      blank-IsSound

-- A price of 2 ^ 64 and more, at five hours for a dollar.
abbrev fortune : ℕ
fortune = 1024819115206087

seconds_bought-exact_iff_example :
    let price = fortune * Plan.hours_per_dollar initial * 3600 in
    (seconds_bought initial fortune ≤ℤ pos (price / 100))
    × ((seconds_bought initial fortune ≡ pos (price / 100)) ↔ (price < 2 ^ 63))
seconds_bought-exact_iff_example = seconds_bought-exact_iff initial fortune

wrapped : seconds_bought initial fortune ≡ pos 143
unfolding seconds_bought int64 quot initial Plan.hours_per_dollar Plan.default_config
wrapped = refl

-- A provider that takes every card.
abbrev shop : Payments
shop = record {
  configured = λ _. true;
  ensure_customer = λ attempt org email. ok (codes "cus_1");
  subscription_checkout = λ attempt org cust p. url (codes "https://pay/s");
  top_up_checkout = λ attempt org cust amount. url (codes "https://pay/t");
  recent_top_ups = λ since. ok (dollar ∷ []);
  portal_url = λ cust. ok (codes "https://pay/p");
  delete_customer = λ cust. ok tt;
}

abbrev ann : Actor
ann = record { user = 9; org = 1; role = Role.owner; email = codes "ann@acme.io" }
