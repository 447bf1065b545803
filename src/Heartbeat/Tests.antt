-- ===== src/Heartbeat/Tests.antt =====
-- A ping with an unknown token.
use beaconpulse.Prelude.{◌≡◌, refl, not, ◌&&◌, any, if◌then◌else◌}
use beaconpulse.Text.{codes, is_empty}
use beaconpulse.World.{ok, err}
use beaconpulse.Monitor.Store.{takes_ping}
use beaconpulse.Monitor.Tests.{start}
use beaconpulse.Heartbeat.{ping, unknown_ping_token}
use beaconpulse.Heartbeat.Isolation.{others, ping-others}

ping-others_example :
    (others (codes "t") (ping 9 (codes "t") start).1.tables ≡ others (codes "t") start.tables)
    × ((ping 9 (codes "t") start).0 ≡ (
        if not (is_empty (codes "t")) && any (takes_ping (codes "t")) start.tables.monitors
        then ok tt
        else err unknown_ping_token))
ping-others_example = ping-others 9 (codes "t") start refl
