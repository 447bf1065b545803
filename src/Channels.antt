-- ===== src/Channels.antt =====
-- The channels that an organization sets up: backend/internal/domain/notification/service.go, and the
-- statements of backend/internal/adapter/postgres/notification_repo.go on the tables of the dispatcher,
-- which hold the rows that are not deleted. Who changed a row last is left out. URL parsing, the
-- cipher and the notifiers are parameters.
pub mod Validation
pub mod Push
pub mod Settings
mod Tests
use beaconpulse.Prelude.{
  filter, find, any, Bool, List, Option, String, ℕ, none, some, [], ◌∷◌, true, false, if◌then◌else◌,
  ◌==◌, ◌&&◌, not, ◌||◌,
}
use beaconpulse.World.{
  validation, internal_error, Entry, db, guard, new_error, pure, record_audit, throw,
  validation_error, AppError, M, Result, ok, err, ◌>>=◌, ◌>>◌, not_found, forbidden,
}
use beaconpulse.Role
use beaconpulse.Role.{Role}
use beaconpulse.Text.{has_length, codes, is_empty, trim_space, Text}
use beaconpulse.Channels.Validation.{Url, validate_channel}
use beaconpulse.Dispatch.{
  emit, Attempt, decrypt_channel, resolved, ChannelType, telegram, slack, discord, email, webhook,
  teams, apns, webpush, Channel, Tables, Decrypted, Message, Dispatcher,
}

pub record Actor : Type 0 where
  pub user : ℕ
  pub org : ℕ
  pub role : Role

-- SupportedTypes
abbrev pub is_supported : ChannelType → Bool
is_supported discord = false
is_supported teams = false
is_supported _ = true

abbrev pub same_type : ChannelType → ChannelType → Bool
same_type telegram telegram = true
same_type slack slack = true
same_type discord discord = true
same_type email email = true
same_type webhook webhook = true
same_type teams teams = true
same_type apns apns = true
same_type webpush webpush = true
same_type _ _ = false

unfoldable pub is_channel : ℕ → ℕ → Channel → Bool
is_channel org id c = c.id == id && c.org == org

abbrev channel_missing : AppError
channel_missing = new_error not_found "notification channel not found"

-- `id` is the primary key; the CHECK on the type admits every type of the code.
unfoldable pub insert_channel : Channel → Tables → Result (Unit {0}) × Tables
insert_channel c t =
    if not (has_length 200 c.name) || any (λ r. r.id == c.id) t.channels
    then (err internal_error, t)
    else (ok tt, record t { channels = c ∷ t.channels })

unfoldable pub create_channel : Channel → M Tables (Unit {0})
create_channel c = db (insert_channel c)

abbrev channel_result : Option Channel → Result Channel
channel_result none = err channel_missing
channel_result (some c) = ok c

unfoldable pub get_channel : ℕ → ℕ → M Tables Channel
get_channel org id = db (λ t. (channel_result (find (is_channel org id) t.channels), t))

unfoldable pub has_type : ℕ → ChannelType → Channel → Bool
has_type org kind c = c.org == org && same_type c.kind kind

unfoldable pub find_by_type : ℕ → ChannelType → M Tables (Option Channel)
find_by_type org kind = db (λ t. (ok (find (has_type org kind) t.channels), t))

-- The columns that the update writes.
abbrev written : Channel → Channel → Channel
written c old = record old {
  name = c.name;
  enabled = c.enabled;
  config = c.config;
  secret_encrypted = c.secret_encrypted;
}

unfoldable pub write_rows : ℕ → ℕ → Channel → List Channel → List Channel
write_rows org id c [] = []
write_rows org id c (r ∷ rs) =
    (if is_channel org id r then written c r else r) ∷ write_rows org id c rs

unfoldable pub update_tx : Channel → Tables → Result (Unit {0}) × Tables
update_tx c t =
    if any (is_channel c.org c.id) t.channels && not (has_length 200 c.name)
    then (err internal_error, t)
    else if any (is_channel c.org c.id) t.channels
    then (ok tt, record t { channels = write_rows c.org c.id c t.channels })
    else (err channel_missing, t)

unfoldable pub update_channel : Channel → M Tables (Unit {0})
update_channel c = db (update_tx c)

unfoldable pub soft_delete_tx : ℕ → ℕ → Tables → Result (Unit {0}) × Tables
soft_delete_tx org id t =
    if any (is_channel org id) t.channels
    then (ok tt, record t { channels = filter (λ c. not (is_channel org id c)) t.channels })
    else (err channel_missing, t)

pub record CreateInput : Type 0 where
  pub name : Text
  pub kind : ChannelType
  pub config : List (Text × Text)
  pub secret : Text
  pub enabled : Option Bool

pub record UpdateInput : Type 0 where
  pub name : Option Text
  pub enabled : Option Bool
  pub config : Option (List (Text × Text))
  pub secret : Option Text

-- The collaborators of the service.
pub record Services : Type 0 where
  pub parse_url : Text → Option Url
  pub encrypt : Text → Option Text
  pub dispatcher : Dispatcher

abbrev cannot : String → AppError
cannot m = new_error forbidden m

unfoldable pub of_check : Option AppError → M Tables (Unit {0})
of_check none = pure tt
of_check (some e) = throw e

unfoldable pub of_option : {A : Type 0} → Option A → AppError → M Tables A
of_option none e = throw e
of_option (some a) e = pure a

abbrev channel_entry : String → Actor → ℕ → Entry
channel_entry action actor id = record {
  action = action;
  org = actor.org;
  user = some actor.user;
  resource = id;
}

-- ensurePushChannel, with the new row's id.
abbrev pub push_channel : ℕ → ℕ → ChannelType → Text → Channel
push_channel id org kind name = record {
  id = id;
  org = org;
  name = name;
  kind = kind;
  enabled = true;
  config = [];
  secret_encrypted = [];
}

unfoldable pub create_missing : Channel → Option Channel → M Tables (Unit {0})
create_missing c none = create_channel c
create_missing c (some found) = pure tt

unfoldable pub ensure_push_channel : ℕ → ℕ → ChannelType → Text → M Tables (Unit {0})
ensure_push_channel id org kind name = do
  existing ← find_by_type org kind
  create_missing (push_channel id org kind name) existing

abbrev pub ensure_apns_channel : ℕ → ℕ → M Tables (Unit {0})
ensure_apns_channel id org = ensure_push_channel id org apns (codes "Apple Push")

abbrev pub ensure_web_push_channel : ℕ → ℕ → M Tables (Unit {0})
ensure_web_push_channel id org = ensure_push_channel id org webpush (codes "Browser push")

unfoldable pub delete : Actor → ℕ → M Tables (Unit {0})
delete actor id = do
  guard (Role.can_write actor.role) (cannot "your role does not permit deleting channels")
  found ← get_channel actor.org id
  db (soft_delete_tx actor.org id)
  record_audit (channel_entry "notification.channel.deleted" actor id)

-- secretOr: a placeholder stands for a secret that is stored.
unfoldable pub secret_or : Channel → Option Text → Text
secret_or c (some provided) = provided
secret_or c none = if is_empty c.secret_encrypted then [] else codes "present"

module _ (s : Services) where
  unfoldable pub encrypt_secret : Text → M Tables Text
  encrypt_secret [] = pure []
  encrypt_secret (c ∷ secret) = of_option (s.encrypt (c ∷ secret)) internal_error

  abbrev or_true : Option Bool → Bool
  or_true none = true
  or_true (some b) = b

  abbrev pub new_channel : ℕ → Actor → CreateInput → Text → Channel
  new_channel id actor input enc = record {
    id = id;
    org = actor.org;
    name = trim_space input.name;
    kind = input.kind;
    enabled = or_true input.enabled;
    config = input.config;
    secret_encrypted = enc;
  }

  unfoldable pub store_new : Actor → Channel → M Tables Channel
  store_new actor c = do
    create_channel c
    record_audit (channel_entry "notification.channel.created" actor c.id)
    pure c

  unfoldable pub create : ℕ → Actor → CreateInput → M Tables Channel
  create id actor input = do
    guard (Role.can_write actor.role) (cannot "your role does not permit creating channels")
    guard (is_supported input.kind)
        (validation_error "channel type is not available yet" ("type" ∷ []))
    of_check (validate_channel s.parse_url input.kind input.config input.secret)
    enc ← encrypt_secret input.secret
    store_new actor (new_channel id actor input enc)

  -- The parts of an update that are given; an empty name is refused.
  unfoldable pub renamed : Option Text → Channel → M Tables Channel
  renamed none c = pure c
  renamed (some name) c =
      if is_empty (trim_space name)
      then throw (validation_error "name must not be empty" ("name" ∷ []))
      else pure (record c { name = trim_space name })

  unfoldable pub switched : Option Bool → Channel → Channel
  switched none c = c
  switched (some b) c = record c { enabled = b }

  unfoldable pub reconfigured : Option (List (Text × Text)) → Channel → Channel
  reconfigured none c = c
  reconfigured (some config) c = record c { config = config }

  -- A secret that is given replaces the stored one, unless it is empty.
  unfoldable pub resealed : Option Text → Channel → M Tables Channel
  resealed none c = pure c
  resealed (some []) c = pure c
  resealed (some (b ∷ secret)) c = do
    enc ← encrypt_secret (b ∷ secret)
    pure (record c { secret_encrypted = enc })

  unfoldable pub merged : UpdateInput → Channel → M Tables Channel
  merged input c = do
    named ← renamed input.name c
    resealed input.secret (reconfigured input.config (switched input.enabled named))

  unfoldable pub store_update : Actor → UpdateInput → Channel → M Tables Channel
  store_update actor input c = do
    of_check (validate_channel s.parse_url c.kind c.config (secret_or c input.secret))
    update_channel c
    record_audit (channel_entry "notification.channel.updated" actor c.id)
    pure c

  unfoldable pub update_permitted : Actor → ℕ → UpdateInput → M Tables Channel
  update_permitted actor id input = do
    c ← get_channel actor.org id
    m ← merged input c
    store_update actor input m

  unfoldable pub update : Actor → ℕ → UpdateInput → M Tables Channel
  update actor id input = do
    guard (Role.can_write actor.role) (cannot "your role does not permit updating channels")
    update_permitted actor id input

  abbrev sample : Message
  sample = record {
    status = resolved;
    severity = codes "info";
    title = codes "Beacon test notification";
    monitor_name = [];
    monitor_type = [];
    monitor_id = [];
    target = [];
    project = [];
    environment = [];
    description = codes "If you can read this, your channel is configured correctly.";
    timestamp = s.dispatcher.now;
    duration = 0;
    dashboard_url = s.dispatcher.dashboard_url;
    analysis = none;
    is_test = true;
  }

  abbrev tried : Channel → Bool → Attempt
  tried c accepted = record {
    channel = some c.id;
    org = c.org;
    message = sample;
    accepted = accepted;
  }

  -- One delivery of the sample, with the notifier of the channel's type.
  unfoldable pub try_channel : Actor → Channel → (Decrypted → Message → Bool) → M Tables (Unit {0})
  try_channel actor c send = do
    dec ← of_option (decrypt_channel s.dispatcher c) internal_error
    emit (tried c (send dec sample))
    guard (send dec sample) (new_error validation "test delivery failed: %v")
    record_audit (channel_entry "notification.test_sent" actor c.id)

  unfoldable pub send_test : Actor → ℕ → M Tables (Unit {0})
  send_test actor id = do
    c ← get_channel actor.org id
    send ←
        of_option (s.dispatcher.registry c.kind)
          (validation_error "no notifier available for this channel type" [])
    try_channel actor c send
