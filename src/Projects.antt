-- ===== src/Projects.antt =====
-- Projects: the data of backend/internal/domain/project/project.go. The statements are in Store, on the
-- tables of the monitors, and the use cases of service.go in Service. Who changed a row last is left out.
pub mod Store
pub mod Service
pub mod Slugs
pub mod Cascade
mod Tests
use beaconpulse.Role.{Role}
use beaconpulse.Prelude.{ℕ, Bool, true, false}
use beaconpulse.Text.{Text}

-- project.Environment; `unlisted` is a string that names none.
pub data Environment : Type 0 where
  production staging development : Environment
  unlisted : Text → Environment

abbrev pub is_listed : Environment → Bool
is_listed (unlisted _) = false
is_listed _ = true

pub record Project : Type 0 where
  pub id : ℕ
  pub org : ℕ
  pub name : Text
  pub slug : Text
  pub description : Text
  pub environment : Environment
  pub is_active : Bool
  pub deleted : Bool

-- project.Actor
pub record Actor : Type 0 where
  pub user : ℕ
  pub org : ℕ
  pub role : Role
