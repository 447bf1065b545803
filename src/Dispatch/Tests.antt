-- ===== src/Dispatch/Tests.antt =====
-- One alert to two channels, the first of which refuses it, and one withheld.
use beaconpulse.Prelude.{
  map, length, Bool, ℕ, ◌≡◌, refl, true, false, none, some, Option, List, [], ◌∷◌, ◌==◌,
}
use beaconpulse.Text.{Text, codes}
use beaconpulse.World.{World, ok, db, record_audit}
use beaconpulse.Dispatch.{
  Dispatcher, AlertEvent, Channel, Tables, ChannelType, telegram, email, firing, dispatch_alerts,
  dispatch_from, dispatch_event, is_suppressed, channels_for, cached, list_enabled, enabled_of,
  dispatch_to, deliver_all, deliver, decrypt_channel, emit, Decrypted, Message, alert_entry,
}
use beaconpulse.Dispatch.Delivery.{Sends, all_expected, dispatch_alerts-Sends}
use beaconpulse.Dispatch.Suppression.{withheld}

abbrev registry : ChannelType → Option (Decrypted → Message → Bool)
registry telegram = some (λ c m. false)
registry email = some (λ c m. true)
registry _ = none

-- Monitor 5 is in a window; a monitor's id is the length of its text.
abbrev dispatcher : Dispatcher
dispatcher = record {
  registry = registry;
  decrypt = λ t. some t;
  parse_id = λ t. some (length t);
  projects = none;
  suppressor = some (λ org m. ok (m == 5));
  fallback = none;
  dashboard_url = [];
  analyzer = none;
  now = 100;
}

abbrev channel : ℕ → ChannelType → Channel
channel id kind = record {
  id = id;
  org = 7;
  name = [];
  kind = kind;
  enabled = true;
  config = [];
  secret_encrypted = [];
}

abbrev start : World Tables
start = record {
  tables = record { channels = channel 1 telegram ∷ channel 2 email ∷ []; outbox = [] };
  faults = [];
  audit = [];
}

abbrev alert_of : Text → AlertEvent
alert_of id = record {
  status = firing;
  alert_name = codes "MonitorDown";
  severity = codes "critical";
  org = 7;
  project = 0;
  monitor_id = id;
  monitor_name = codes "web";
  monitor_type = codes "https";
  target = [];
  summary = [];
  description = [];
  starts_at = 40;
  ends_at = 0;
}

-- The second channel is tried though the first refused.
both_tried :
    map {B = Option ℕ × Bool}
      (λ a. (a.channel, a.accepted))
      (dispatch_alerts dispatcher (alert_of (codes "m") ∷ []) start).1.tables.outbox
    ≡ ((some 1, false) ∷ (some 2, true) ∷ [])
unfolding dispatch_alerts dispatch_from dispatch_event is_suppressed channels_for cached
    list_enabled enabled_of dispatch_to deliver_all deliver decrypt_channel emit db record_audit
both_tried = refl

abbrev two_alerts : List AlertEvent
two_alerts = alert_of (codes "m") ∷ alert_of (codes "five!") ∷ []

dispatch_alerts-Sends_example :
    Sends start
      (dispatch_alerts dispatcher two_alerts start).1
      (all_expected dispatcher (channel 1 telegram ∷ channel 2 email ∷ []) two_alerts)
dispatch_alerts-Sends_example = dispatch_alerts-Sends dispatcher two_alerts start refl

-- The second alert is the one withheld.
one_withheld :
    withheld dispatcher two_alerts [] ≡ (alert_entry "alert.suppressed_by_maintenance" 7 5 ∷ [])
unfolding is_suppressed
one_withheld = refl
