-- ===== src/Ledger/Tests.antt =====
-- The ledger's laws at a concrete table.
use beaconpulse.Prelude.{
  ℕ, ◌≡◌, refl, true, false, Option, some, none, [], ◌∷◌, ◌==◌, if◌then◌else◌, Bool,
}
use beaconpulse.Text.{codes}
use beaconpulse.World.{World, db}
use beaconpulse.Plan.{free}
use beaconpulse.Ledger.{Org, Probed, Tables, balance, deduct_credit, enabled_count, burn}

-- Two organizations: 1 has credit and two enabled monitors, 2 has been deleted.
abbrev pub acme : Org
acme = record {
  plan = free;
  status = none;
  period_end = none;
  customer = none;
  credit = 700;
  deleted = false;
}

abbrev org_of : ℕ → Option Org
org_of k =
    if k == 1 then some acme else if k == 2 then some (record acme { deleted = true }) else none

abbrev pub probed : Bool → Probed
probed on = record { org = 1; enabled = on; deleted = false }

abbrev pub two_orgs : Tables
two_orgs = record {
  orgs = org_of;
  users =
      record {
        org = 1;
        email = codes "ann@acme.io";
        is_owner = true;
        created_at = 3;
        deleted = false;
      }
      ∷ [];
  events = [];
  runs = [];
  monitors = probed true ∷ probed false ∷ probed true ∷ [];
}

abbrev shaky : World Tables
shaky = record { tables = two_orgs; faults = false ∷ true ∷ []; audit = [] }

metered : balance (deduct_credit 60 shaky).1.tables 1 ≡ 580
unfolding deduct_credit balance enabled_count db burn
metered = refl
