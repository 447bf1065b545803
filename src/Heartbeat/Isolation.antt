-- ===== src/Heartbeat/Isolation.antt =====
-- What an unauthenticated ping can change.
use beaconpulse.Prelude.{ℕ, ◌≡◌, refl, not, ◌&&◌, List, [], ◌∷◌, any, filter, arith, if◌then◌else◌}
use beaconpulse.Text.{Text, is_empty}
use beaconpulse.World.{World, ok, err, db}
use beaconpulse.World.Rules.{db-keeps}
use beaconpulse.Monitor.Store.{Row, Tables, takes_ping, pinged, edit_rows, record_ping}
use beaconpulse.Heartbeat.{ping, unknown_ping_token}

-- The rows that the token does not reach.
abbrev pub others : Text → Tables → List Row
others token t = filter (λ r. not (takes_ping token r)) t.monitors

others-edit_rows :
    (token : Text) (at : ℕ) (rs : List Row)
    → filter (λ r. not (takes_ping token r)) (edit_rows (takes_ping token) (pinged at) rs)
      ≡ filter (λ r. not (takes_ping token r)) rs
unfolding edit_rows takes_ping
others-edit_rows token at [] = refl
others-edit_rows token at (r ∷ rs) = ground (arith, others-edit_rows token at rs)

others-record_ping :
    (now : ℕ) (token : Text) (w : World Tables)
    → others token (record_ping token now w).1.tables ≡ others token w.tables
unfolding record_ping
others-record_ping now token w =
    db-keeps (λ t. others token t ≡ others token w.tables) _ w refl
      (others-edit_rows token now w.tables.monitors)

record_ping-matched :
    (now : ℕ) (token : Text) (w : World Tables)
    → w.faults ≡ []
    → (record_ping token now w).0 ≡ ok (any (takes_ping token) w.tables.monitors)
unfolding record_ping db
record_ping-matched now token w h = ground arith

-- While the database answers, a ping changes no row but those of live heartbeats with its token, and it
-- is accepted exactly if the token is not empty and there is such a heartbeat.
pub ping-others :
    (now : ℕ) (token : Text) (w : World Tables)
    → w.faults ≡ []
    → (others token (ping now token w).1.tables ≡ others token w.tables)
      × ((ping now token w).0 ≡ (
          if not (is_empty token) && any (takes_ping token) w.tables.monitors
          then ok tt
          else err unknown_ping_token))
unfolding ping
ping-others now token w h = (
  ground (arith, others-record_ping now token w),
  ground (arith, record_ping-matched now token w h),
)
