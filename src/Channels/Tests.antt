-- ===== src/Channels/Tests.antt =====
-- A Slack channel created and renamed, and a push channel switched on, for one organization.
use beaconpulse.Channels.Settings.{create-enabled_of, update-slack}
use beaconpulse.Channels.Push.{ensure-ensure, IsEnsured}
use beaconpulse.Text.{
  characters, has_prefix, has_suffix, drop_while, trim, trim_space, Text, codes, text_eq,
}
use beaconpulse.Prelude.{
  Option, find, ◌≡◌, ◌≢◌, refl, none, some, [], ◌∷◌, ◌++◌, true, false, if◌then◌else◌,
}
use beaconpulse.World.{record_audit, db, World, ok}
use beaconpulse.Role.{owner}
use beaconpulse.Channels.Validation
use beaconpulse.Channels.Validation.{slack_settings, is_https, Url, validate_channel}
use beaconpulse.Channels.{
  store_new, of_option, encrypt_secret, insert_channel, create_channel, create_missing,
  find_by_type, of_check, create, ensure_push_channel, is_channel, push_channel, update, Services,
  Actor, CreateInput, UpdateInput,
}
use beaconpulse.Dispatch.{enabled_of, slack, apns, Channel, Tables, Dispatcher}

abbrev hook : Text
hook = codes "https://hooks.slack.com/x"

abbrev read_url : Text → Option Url
read_url raw =
    if text_eq raw hook
    then some (record { scheme = codes "https"; host = codes "hooks.slack.com" })
    else some (record { scheme = []; host = [] })

abbrev dispatcher : Dispatcher
dispatcher = record {
  registry = λ kind. none;
  decrypt = λ sealed. some sealed;
  parse_id = λ text. none;
  projects = none;
  suppressor = none;
  fallback = none;
  dashboard_url = [];
  analyzer = none;
  now = 9;
}

abbrev services : Services
services = record { parse_url = read_url; encrypt = λ secret. some secret; dispatcher = dispatcher }

abbrev boss : Actor
boss = record { user = 1; org = 7; role = owner }

abbrev blank : World Tables
blank = record { tables = record { channels = []; outbox = [] }; faults = []; audit = [] }

abbrev wish : CreateInput
wish = record { name = codes " ops "; kind = slack; config = []; secret = hook; enabled = none }

abbrev ops : Channel
ops = record {
  id = 5;
  org = 7;
  name = codes "ops";
  kind = slack;
  enabled = true;
  config = [];
  secret_encrypted = hook;
}

abbrev with_ops : World Tables
with_ops = record blank { tables = record { channels = ops ∷ []; outbox = [] } }

created : (create services 5 boss wish blank).0 ≡ ok ops
unfolding characters create of_check validate_channel slack_settings Validation.first_of trim_space
    trim drop_while text_eq has_suffix has_prefix encrypt_secret of_option store_new create_channel
    insert_channel db record_audit
created = refl

create-enabled_of_example :
    (validate_channel read_url slack [] hook ≡ none)
    × ((create services 5 boss wish blank).1.tables.channels ≡ ops ∷ [])
    × (enabled_of 7 (create services 5 boss wish blank).1.tables.channels
        ≡ (ops ∷ []) ++ enabled_of 7 [])
create-enabled_of_example = create-enabled_of services 5 boss wish blank created

abbrev rename : UpdateInput
rename = record { name = some (codes "night"); enabled = none; config = none; secret = none }

is_found : find (is_channel 7 5) (ops ∷ []) ≡ some ops
unfolding is_channel
is_found = refl

reads_placeholder : is_https (read_url (codes "present")) ≡ false
unfolding text_eq
reads_placeholder = refl

reads_empty : is_https (read_url []) ≡ false
unfolding text_eq
reads_empty = refl

update-slack_example : (update services boss 5 rename with_ops).0 ≢ ok ops
update-slack_example =
    update-slack services boss 5 rename with_ops reads_placeholder reads_empty is_found refl refl
      ops

abbrev push : Channel
push = push_channel 6 7 apns (codes "Apple Push")

abbrev with_push : World Tables
with_push = record blank { tables = record { channels = push ∷ []; outbox = [] } }

ensured : (ensure_push_channel 6 7 apns (codes "Apple Push") blank).0 ≡ ok tt
unfolding characters ensure_push_channel find_by_type create_missing create_channel insert_channel
    db
ensured = refl

leaves : with_push.tables ≡ (ensure_push_channel 6 7 apns (codes "Apple Push") blank).1.tables
unfolding characters ensure_push_channel find_by_type create_missing create_channel insert_channel
    db
leaves = refl

ensure-ensure_example :
    IsEnsured 6 7 apns (codes "Apple Push") blank.tables with_push.tables
    × ((ensure_push_channel 8 7 apns (codes "Apple Push") with_push).1.tables ≡ with_push.tables)
ensure-ensure_example = ensure-ensure 6 8 7 apns (codes "Apple Push") blank with_push ensured leaves
