-- ===== src/Dispatch.antt =====
-- Alerts fanned out to an organization's channels:
-- backend/internal/domain/notification/{dispatcher,message,channel}.go. What is sent is an outbox, in
-- the order of sending; the suppressor, notifiers, cipher, analyzer and project lookup are parameters.
pub mod Delivery
pub mod Suppression
mod Tests
use beaconpulse.Prelude.{
  ℕ, ◌-◌, Bool, true, false, not, ◌&&◌, ◌||◌, Option, none, some, List, [], ◌∷◌, ◌++◌, filter,
  String, ltb, ◌==◌, if◌then◌else◌,
}
use beaconpulse.Text.{Text, is_empty}
use beaconpulse.World.{
  Entry, Result, ok, err, M, ◌>>=◌, ◌>>◌, and_then, pure, best_effort, db, record_audit,
}

pub data ChannelType : Type 0 where
  telegram slack discord email webhook teams apns webpush : ChannelType

pub record Channel : Type 0 where
  pub id : ℕ
  pub org : ℕ
  pub name : Text
  pub kind : ChannelType
  pub enabled : Bool
  pub config : List (Text × Text)
  pub secret_encrypted : Text

pub record Decrypted : Type 0 where
  pub kind : ChannelType
  pub name : Text
  pub org : ℕ
  pub config : List (Text × Text)
  pub secret : Text

pub data AlertStatus : Type 0 where
  firing resolved : AlertStatus

abbrev pub is_firing : AlertStatus → Bool
is_firing firing = true
is_firing resolved = false

-- Times are seconds, 0 the zero time; ids are numbers, 0 the nil id.
pub record AlertEvent : Type 0 where
  pub status : AlertStatus
  pub alert_name : Text
  pub severity : Text
  pub org : ℕ
  pub project : ℕ
  pub monitor_id : Text
  pub monitor_name : Text
  pub monitor_type : Text
  pub target : Text
  pub summary : Text
  pub description : Text
  pub starts_at : ℕ
  pub ends_at : ℕ

abbrev end_of : AlertEvent → ℕ → ℕ
end_of ev now = if not (is_firing ev.status) && not (ev.ends_at == 0) then ev.ends_at else now

-- AlertEvent.Duration
unfoldable pub duration : AlertEvent → ℕ → ℕ
duration ev now =
    if ev.starts_at == 0 || ltb (end_of ev now) ev.starts_at
    then 0
    else end_of ev now - ev.starts_at

pub record Analysis : Type 0 where
  pub severity : Text
  pub summary : Text
  pub likely_cause : Text
  pub suggested_fix : Text
  pub model : Text

pub record Message : Type 0 where
  pub status : AlertStatus
  pub severity : Text
  pub title : Text
  pub monitor_name : Text
  pub monitor_type : Text
  pub monitor_id : Text
  pub target : Text
  pub project : Text
  pub environment : Text
  pub description : Text
  pub timestamp : ℕ
  pub duration : ℕ
  pub dashboard_url : Text
  pub analysis : Option Analysis
  pub is_test : Bool

-- One attempt: the channel, or none for the default recipients, and whether it was accepted.
pub record Attempt : Type 0 where
  pub channel : Option ℕ
  pub org : ℕ
  pub message : Message
  pub accepted : Bool

-- The rows that are not deleted, and what has been sent.
pub record Tables : Type 0 where
  pub channels : List Channel
  pub outbox : List Attempt

-- The collaborators: `suppressor` of an organization and a monitor at the time of the call, `registry`
-- of the notifiers by type, `fallback` of an organization and a message.
pub record Dispatcher : Type 0 where
  pub registry : ChannelType → Option (Decrypted → Message → Bool)
  pub decrypt : Text → Option Text
  pub parse_id : Text → Option ℕ
  pub projects : Option (ℕ → ℕ → Option (Text × Text))
  pub suppressor : Option (ℕ → ℕ → Result Bool)
  pub fallback : Option (ℕ → Message → Bool)
  pub dashboard_url : Text
  pub analyzer : Option (AlertEvent → Option Analysis)
  pub now : ℕ

unfoldable pub enabled_of : ℕ → List Channel → List Channel
enabled_of org cs = filter (λ c. c.org == org && c.enabled) cs

unfoldable pub list_enabled : ℕ → M Tables (List Channel)
list_enabled org = db (λ t. (ok (enabled_of org t.channels), t))

unfoldable pub emit : Attempt → M Tables (Unit {0})
emit a w = (ok tt, record w { tables = record w.tables { outbox = w.tables.outbox ++ (a ∷ []) } })

abbrev pub alert_entry : String → ℕ → ℕ → Entry
alert_entry action org resource = record {
  action = action;
  org = org;
  user = none;
  resource = resource;
}

abbrev Cache : Type 0
Cache = List (ℕ × List Channel)

unfoldable pub cached : ℕ → Cache → Option (List Channel)
cached org [] = none
cached org ((o, cs) ∷ cache) = if o == org then some cs else cached org cache

abbrev pub channels_or_none : Result (List Channel) → List Channel
channels_or_none (ok cs) = cs
channels_or_none (err e) = []

abbrev pub is_nil : List Channel → Bool
is_nil [] = true
is_nil (c ∷ cs) = false

abbrev pub read_channels : ℕ → Cache → Option (List Channel) → M Tables (List Channel × Cache)
read_channels org cache (some cs) = pure (cs, cache)
read_channels org cache none = do
  listed ← best_effort (list_enabled org)
  pure (channels_or_none listed, (org, channels_or_none listed) ∷ cache)

-- The channels of an organization, read once for each call of the dispatcher.
unfoldable pub channels_for : ℕ → Cache → M Tables (List Channel × Cache)
channels_for org cache = read_channels org cache (cached org cache)

module _ (d : Dispatcher) where
  abbrev answers_yes : Result Bool → Bool
  answers_yes (ok b) = b
  answers_yes (err e) = false

  abbrev asks : Option (ℕ → ℕ → Result Bool) → ℕ → Option ℕ → Bool
  asks none org m = false
  asks (some check) org none = false
  asks (some check) org (some m) = answers_yes (check org m)

  -- A check that fails does not suppress.
  unfoldable pub is_suppressed : AlertEvent → Bool
  is_suppressed ev = asks d.suppressor ev.org (d.parse_id ev.monitor_id)

  abbrev pub id_or_zero : Option ℕ → ℕ
  id_or_zero none = 0
  id_or_zero (some m) = m

  unfoldable pub record_suppressed : AlertEvent → M Tables (Unit {0})
  record_suppressed ev =
      record_audit (
        alert_entry "alert.suppressed_by_maintenance" ev.org
          (id_or_zero (d.parse_id ev.monitor_id)))

  abbrev project_names : Option (ℕ → ℕ → Option (Text × Text)) → AlertEvent → Text × Text
  project_names none ev = ([], [])
  project_names (some look) ev =
      if ev.project == 0 then ([], []) else names_or_empty (look ev.org ev.project)
    where
      names_or_empty : Option (Text × Text) → Text × Text
      names_or_empty none = ([], [])
      names_or_empty (some p) = p

  unfoldable pub render : AlertEvent → Message
  render ev = record {
    status = ev.status;
    severity = ev.severity;
    title = if is_empty ev.summary then ev.alert_name else ev.summary;
    monitor_name = ev.monitor_name;
    monitor_type = ev.monitor_type;
    monitor_id = ev.monitor_id;
    target = ev.target;
    project = (project_names d.projects ev).0;
    environment = (project_names d.projects ev).1;
    description = ev.description;
    timestamp = end_of ev ev.starts_at;
    duration = duration ev d.now;
    dashboard_url = d.dashboard_url;
    analysis = none;
    is_test = false;
  }

  unfoldable pub enrich : AlertEvent → Option Analysis
  enrich ev = elim d.analyzer [ none ↦ none | some analyze ↦ analyze ev ]

  -- The message with the analysis of a firing alert.
  unfoldable pub message_of : AlertEvent → Message
  message_of ev =
      if is_firing ev.status then record (render ev) { analysis = enrich ev } else render ev

  abbrev pub sent_action : Bool → String
  sent_action true = "notification.sent"
  sent_action false = "notification.failed"

  abbrev pub attempt_and_record : Attempt → ℕ → M Tables (Unit {0})
  attempt_and_record a resource = do
    emit a
    record_audit (alert_entry (sent_action a.accepted) a.org resource)

  abbrev pub fall_back : Option (ℕ → Message → Bool) → AlertEvent → M Tables (Unit {0})
  fall_back none ev = pure tt
  fall_back (some send) ev =
      attempt_and_record
        (record {
          channel = none;
          org = ev.org;
          message = message_of ev;
          accepted = send ev.org (message_of ev);
        })
        0

  unfoldable pub dispatch_fallback : AlertEvent → M Tables (Unit {0})
  dispatch_fallback ev = fall_back d.fallback ev

  unfoldable pub decrypt_channel : Channel → Option Decrypted
  decrypt_channel ch =
      if is_empty ch.secret_encrypted
      then some (opened [])
      else with_secret (d.decrypt ch.secret_encrypted)
    where
      opened : Text → Decrypted
      opened secret = record {
        kind = ch.kind;
        name = ch.name;
        org = ch.org;
        config = ch.config;
        secret = secret;
      }

      with_secret : Option Text → Option Decrypted
      with_secret none = none
      with_secret (some secret) = some (opened secret)

  abbrev pub deliver_by :
      Option (Decrypted → Message → Bool)
      → Option Decrypted
      → Channel
      → Message
      → M Tables (Unit {0})
  deliver_by none dec ch msg = pure tt
  deliver_by (some send) none ch msg = pure tt
  deliver_by (some send) (some dec) ch msg =
      attempt_and_record
        (record { channel = some ch.id; org = ch.org; message = msg; accepted = send dec msg })
        ch.id

  unfoldable pub deliver : Channel → Message → M Tables (Unit {0})
  deliver ch msg = deliver_by (d.registry ch.kind) (decrypt_channel ch) ch msg

  unfoldable pub deliver_all : Message → List Channel → M Tables (Unit {0})
  deliver_all msg [] = pure tt
  deliver_all msg (ch ∷ chs) = deliver ch msg >> deliver_all msg chs

  unfoldable pub dispatch_to : AlertEvent → List Channel → M Tables (Unit {0})
  dispatch_to ev chs = if is_nil chs then dispatch_fallback ev else deliver_all (message_of ev) chs

  -- An event without an organization is skipped, one in a maintenance window is recorded.
  abbrev pub handle : Bool → Bool → AlertEvent → Cache → M Tables Cache
  handle true suppressed ev cache = pure cache
  handle false true ev cache = record_suppressed ev >> pure cache
  handle false false ev cache = do
    found ← channels_for ev.org cache
    dispatch_to ev (found.0)
    pure (found.1)

  unfoldable pub dispatch_event : AlertEvent → Cache → M Tables Cache
  dispatch_event ev cache = handle (ev.org == 0) (is_suppressed ev) ev cache

  unfoldable pub dispatch_from : Cache → List AlertEvent → M Tables (Unit {0})
  dispatch_from cache [] = pure tt
  dispatch_from cache (ev ∷ evs) = dispatch_event ev cache >>= λ cache'. dispatch_from cache' evs

  unfoldable pub dispatch_alerts : List AlertEvent → M Tables (Unit {0})
  dispatch_alerts evs = dispatch_from [] evs
