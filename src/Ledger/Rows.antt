-- ===== src/Ledger/Rows.antt =====
-- The rows of the billing tables: backend/migrations/0001_init.up.sql, 0009_billing.up.sql and
-- 0010_diagnose_runs.up.sql, with the columns that the statements read or write.
use beaconpulse.Prelude.{ℕ, Bool, Option, List}
use beaconpulse.Prelude.Int.{ℤ}
use beaconpulse.Text.{Text}
use beaconpulse.Plan.{Plan}

-- A row of `organizations`, less its id.
pub record Org : Type 0 where
  pub plan : Plan
  pub status : Option Text
  pub period_end : Option ℕ
  pub customer : Option Text
  pub credit : ℕ
  pub deleted : Bool

-- A row of `users`.
pub record User : Type 0 where
  pub org : ℕ
  pub email : Text
  pub is_owner : Bool
  pub created_at : ℕ
  pub deleted : Bool

pub data EventKind : Type 0 where
  topup subscription : EventKind

-- A row of `billing_events`.
pub record Event : Type 0 where
  pub event_id : Text
  pub org : ℕ
  pub kind : EventKind
  pub amount_cents : ℕ
  pub credit_added : ℤ

-- A row of `diagnose_runs`.
pub record Run : Type 0 where
  pub org : ℕ
  pub monitor : ℕ
  pub credit_seconds : ℕ
  pub created_at : ℕ

-- What the meter reads of a row of `monitors`.
pub record Probed : Type 0 where
  pub org : ℕ
  pub enabled : Bool
  pub deleted : Bool

pub record Tables : Type 0 where
  pub orgs : ℕ → Option Org
  pub users : List User
  pub events : List Event
  pub runs : List Run
  pub monitors : List Probed
