-- ===== src/Billing/Checkouts.antt =====
-- Starting a checkout: who may, and how a stale customer is replaced.
use beaconpulse.Prelude.{ℕ, ◌≤◌, ◌≡◌, true, Option, none, some, arith}
use beaconpulse.Text.{Text}
use beaconpulse.World.{ok, World}
use beaconpulse.Role
use beaconpulse.Ledger.{Tables}
use beaconpulse.Billing.{Actor, Payments, guarded, start_top_up}

-- A checkout URL goes to owners and admins of a deployment with a provider, and for a top-up of at
-- least one dollar.
pub start_top_up-allowed :
    (p : Option Payments) (actor : Actor) (amount : ℕ) (w : World Tables) {u : Text}
    → (start_top_up p actor amount w).0 ≡ ok u
    → (Role.can_administer actor.role ≡ true) × (100 ≤ amount)
unfolding start_top_up guarded
start_top_up-allowed none actor amount w h = cc
start_top_up-allowed (some pay) actor amount w h = ground arith
