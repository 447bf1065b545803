-- ===== src/ControlPlane/Rules.antt =====
-- The alerting rules of a monitor: ruleLabels, buildRules, alertFor and availabilityFor of
-- backend/internal/adapter/controlplane/generator.go.
use beaconpulse.ControlPlane.{decimal, seconds, thousandths, Labels, Rule}
use beaconpulse.Text.{codes, has_prefix, text_eq, Text}
use beaconpulse.Prelude.{
  ℕ, ◌+◌, ◌*◌, ◌++◌, Bool, true, false, ◌||◌, ◌&&◌, List, [], ◌∷◌, if◌then◌else◌,
}
use beaconpulse.Prelude.Int.{ℤ, pos, negsuc, ◌+ℤ◌, pos_part, ltb_ℤ, sub_ℕ}
use beaconpulse.Monitor.{
  Kind, http, https, ssl, tcp, icmp, dns, heartbeat, github_actions, unsupported, Monitor,
}

-- The string of a type.
abbrev pub kind_text : Kind → Text
kind_text http = codes "http"
kind_text https = codes "https"
kind_text ssl = codes "ssl"
kind_text tcp = codes "tcp"
kind_text icmp = codes "icmp"
kind_text dns = codes "dns"
kind_text heartbeat = codes "heartbeat"
kind_text github_actions = codes "github_actions"
kind_text (unsupported s) = s

-- Multiplication of an int by a positive number.
abbrev times : ℕ → ℤ → ℤ
times k (pos n) = pos (k * n)
times k (negsuc n) = sub_ℕ 0 (k * (n + 1))

abbrev at_least : ℤ → ℤ → ℤ
at_least low d = if ltb_ℤ d low then low else d

unfoldable pub availability_for : ℤ → ℤ
availability_for interval = at_least (pos 60) (times 2 interval)

-- alertFor, before it is written with its unit.
unfoldable pub alert_for : Text → ℤ → ℤ
alert_for sensitivity interval =
    if text_eq sensitivity (codes "immediate")
    then pos 0
    else if text_eq sensitivity (codes "relaxed")
    then at_least (pos 300) (times 4 interval)
    else availability_for interval

abbrev is_tls : Kind → Bool
is_tls https = true
is_tls ssl = true
is_tls _ = false

abbrev pub is_heartbeat : Kind → Bool
is_heartbeat heartbeat = true
is_heartbeat _ = false

module _ (show_id : ℕ → Text) where
  unfoldable pub rule_labels : Monitor → Text → Labels
  rule_labels m severity =
      (codes "severity", severity)
      ∷ (codes "org_id", show_id m.org)
      ∷ (codes "project_id", show_id m.project)
      ∷ (codes "monitor_id", show_id m.id)
      ∷ (codes "monitor_type", kind_text m.kind)
      ∷ []

  abbrev described : Text → Text → Labels
  described summary description =
      (codes "summary", summary) ∷ (codes "description", description) ∷ []

  unfoldable pub heartbeat_rule : Monitor → Rule
  heartbeat_rule m = record {
    alert = codes "HeartbeatMissed";
    expr =
        codes
          "time() - max by (monitor_id) (beacon_heartbeat_last_ping_timestamp_seconds{monitor_id=\""
        ++ show_id m.id
        ++ codes "\"}) > "
        ++ decimal (m.interval_seconds +ℤ m.grace_seconds);
    duration = codes "0s";
    labels = rule_labels m (codes "critical");
    annotations = described (m.name ++ codes " has missed its heartbeat") (
        m.name
        ++ codes " expected a ping every "
        ++ seconds m.interval_seconds
        ++ codes " (+"
        ++ seconds m.grace_seconds
        ++ codes " grace) but none has arrived.");
  }

  abbrev selector : Monitor → Text
  selector m = codes "{monitor_id=\"" ++ show_id m.id ++ codes "\"}"

  unfoldable pub down_rule : Monitor → Rule
  down_rule m =
      let for_dur = seconds (alert_for m.settings.alert_sensitivity m.interval_seconds) in
      record {
        alert = codes "MonitorDown";
        expr = codes "probe_success" ++ selector m ++ codes " == 0";
        duration = for_dur;
        labels = rule_labels m (codes "critical");
        annotations = described (m.name ++ codes " is down") (
            m.name
            ++ codes " ("
            ++ m.target
            ++ codes ") has failed its health check for more than "
            ++ for_dur
            ++ codes ".");
      }

  unfoldable pub warns_of_expiry : Monitor → Bool
  warns_of_expiry m =
      (is_tls m.kind || has_prefix m.target (codes "https://"))
      && ltb_ℤ (pos 0) m.settings.ssl_expiry_warning_days

  unfoldable pub expiry_rule : Monitor → Rule
  expiry_rule m =
      let days = decimal m.settings.ssl_expiry_warning_days in
      record {
        alert = codes "SSLCertExpiringSoon";
        expr =
            codes "probe_ssl_earliest_cert_expiry"
            ++ selector m
            ++ codes " - time() < "
            ++ days
            ++ codes " * 86400";
        duration = codes "10m";
        labels = rule_labels m (codes "warning");
        annotations = described (codes "TLS certificate for " ++ m.name ++ codes " expiring soon") (
            codes "The certificate for "
            ++ m.target
            ++ codes " expires in less than "
            ++ days
            ++ codes " days.");
      }

  unfoldable pub slow_rule : Monitor → Rule
  slow_rule m =
      let ms = m.settings.response_time_warning_ms in
      record {
        alert = codes "SlowResponse";
        expr =
            codes "probe_duration_seconds"
            ++ selector m
            ++ codes " > "
            ++ thousandths (pos_part ms);
        duration = codes "5m";
        labels = rule_labels m (codes "warning");
        annotations = described (m.name ++ codes " is responding slowly") (
            m.target
            ++ codes " response time has exceeded "
            ++ decimal ms
            ++ codes "ms for 5 minutes.");
      }

  abbrev pub when : Bool → Rule → List Rule
  when true r = r ∷ []
  when false r = []

  unfoldable pub build_rules : Monitor → List Rule
  build_rules m =
      if is_heartbeat m.kind
      then heartbeat_rule m ∷ []
      else down_rule m
        ∷ (when (warns_of_expiry m) (expiry_rule m)
            ++ when (ltb_ℤ (pos 0) m.settings.response_time_warning_ms) (slow_rule m))
