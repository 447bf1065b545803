-- ===== src/Diagnose/Tests.antt =====
-- A paid diagnosis that is delivered, and one that is not.
use beaconpulse.Prelude.{ℕ, ◌-◌, ◌≤◌, ◌≡◌, ◌&&◌, some, none, [], ◌==◌, if◌then◌else◌, arith, Option}
use beaconpulse.Text.{codes}
use beaconpulse.World.{ok}
use beaconpulse.Plan.{initial}
use beaconpulse.Ledger.{balance, bigint_max}
use beaconpulse.Ledger.Tests.{two_orgs}
use beaconpulse.Diagnose.{Actor, Services, run}
use beaconpulse.Diagnose.Outcome.{price, delivered, calm, balance-run}

-- Evidence and analysis are numbers here; the model reads the evidence 0 only.
abbrev read_zero : ℕ → Option ℕ
read_zero ev = if ev == 0 then some 1 else none

abbrev lab : ℕ → Services ℕ ℕ
lab ev = record {
  target_for = λ org monitor. ok (codes "example.com", codes "https");
  probe = λ target kind. ok ev;
  explain = some read_zero;
  cost_seconds = 300;
}

abbrev caller : Actor
caller = record { user = 9; org = 1 }

room : balance two_orgs 1 ≤ bigint_max
unfolding balance
room = omega arith

balance-run_example :
    let (r, w') = run (lab 0) initial 0 50 caller 4 (calm two_orgs []) in
    balance w'.tables 1 ≡ (
      if delivered r && 1 == 1
      then balance two_orgs 1 - price initial 300 1 two_orgs
      else balance two_orgs 1)
balance-run_example = balance-run (lab 0) initial 0 50 caller 4 two_orgs [] 1 room
