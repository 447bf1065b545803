-- ===== src/Heartbeat.antt =====
-- Pings of heartbeat monitors: backend/internal/domain/heartbeat/heartbeat.go.
pub mod Isolation
mod Tests
use beaconpulse.Prelude.{ℕ, not}
use beaconpulse.Text.{Text, is_empty}
use beaconpulse.World.{AppError, M, ◌>>=◌, ◌>>◌, guard, new_error, not_found}
use beaconpulse.Monitor.Store.{Tables, record_ping}

abbrev pub unknown_ping_token : AppError
unknown_ping_token = new_error not_found "unknown ping token"

unfoldable pub ping : ℕ → Text → M Tables (Unit {0})
ping now token = do
  guard (not (is_empty token)) unknown_ping_token
  matched ← record_ping token now
  guard matched unknown_ping_token
