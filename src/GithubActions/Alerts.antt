-- ===== src/GithubActions/Alerts.antt =====
-- When a reported run notifies, and what it leaves behind.
use beaconpulse.Prelude.{
  ℕ, ◌≡◌, ◌↔◌, ◌∙◌, ap, refl, inl, inr, Bool, true, false, not, ◌&&◌, ◌||◌, none, some, arith,
  Option-cases, if◌then◌else◌,
}
use beaconpulse.Text.{Text, to_lower, trim_space, is_empty}
use beaconpulse.World.{ok, err, World}
use beaconpulse.World.Rules.{Result-cases}
use beaconpulse.Monitor.{Monitor, is_down}
use beaconpulse.Monitor.Store.{Tables, github_by_token_hash}
use beaconpulse.GithubActions.{
  unknown_token, Event, Decision, firing, resolved, succeeded, classify, is_failure, is_success,
  alert_of, is_other_workflow, act, for_monitor, ingest, ignore,
}

abbrev pub word : Event → Text
word ev = to_lower (trim_space ev.status)

-- The run is of the monitor's workflow and the monitor is not paused.
abbrev pub counts : Monitor → Event → Bool
counts m ev = not (is_other_workflow m ev) && m.enabled

abbrev pub decided : Event → Monitor → Decision
decided ev m =
    if counts m ev && (is_failure (word ev) || is_success (word ev))
    then record { ignored = false; monitor = m; alert = alert_of m (classify ev.status).0 }
    else ignore m

for_monitor-decided :
    (now : ℕ) (ev : Event) (m : Monitor) (w : World Tables)
    → (for_monitor now ev (some m) w).0 ≡ ok (decided ev m)
unfolding for_monitor act classify
for_monitor-decided now ev m w = ground arith

for_monitor-none :
    (now : ℕ) (ev : Event) (w : World Tables) → (for_monitor now ev none w).0 ≡ err unknown_token
unfolding for_monitor
for_monitor-none now ev w = refl

ingest-for_monitor :
    (hash_of : Text → Text) (now : ℕ) (token : Text) (ev : Event) (w : World Tables) {d : Decision}
    → (ingest hash_of now token ev w).0 ≡ ok d
    → (m : Monitor) × ((github_by_token_hash (hash_of token) w).0 ≡ ok (some m))
      × ((for_monitor now ev (some m) (github_by_token_hash (hash_of token) w).1).0 ≡ ok d)
unfolding ingest
ingest-for_monitor hash_of now token ev w h =
    let got = github_by_token_hash (hash_of token) w in
    elim (Result-cases got.0) [
      | inr (e, failed) ↦ ground arith
      | inl (found, read) ↦ elim (Option-cases found) [
        | inl missing ↦ ground (arith, for_monitor-none now ev got.1)
        | inr (m, is_m) ↦ (m, read ∙ ap ok is_m, ground arith)
      ]
    ]

pub record IsAlert (ev : Event) (d : Decision) : Type 0 where
  pub fires : (d.alert ≡ firing) ↔ ((counts d.monitor ev && is_failure (word ev)) ≡ true)
  pub resolves : (d.alert ≡ resolved) ↔ (
      (counts d.monitor ev
        && not (is_failure (word ev))
        && is_success (word ev)
        && is_down d.monitor.last_status)
      ≡ true)
  pub confirms : (d.alert ≡ succeeded) ↔ (
      (counts d.monitor ev
        && not (is_failure (word ev))
        && is_success (word ev)
        && not (is_down d.monitor.last_status)
        && d.monitor.settings.github_notify_on_success)
      ≡ true)

decided-IsAlert : (ev : Event) (m : Monitor) {d : Decision} → d ≡ decided ev m → IsAlert ev d
unfolding alert_of classify
decided-IsAlert ev m h = record {
  fires = ground arith;
  resolves = ground arith;
  confirms = ground arith;
}

-- A decision names the monitor whose stored hash is that of the token, and announces a failure exactly
-- for a failed run that counts, a recovery exactly for a good one on a monitor that was down, and a
-- success exactly for a good one on a monitor that was not down and asks for it.
pub ingest-IsAlert :
    (hash_of : Text → Text) (now : ℕ) (token : Text) (ev : Event) (w : World Tables) {d : Decision}
    → (ingest hash_of now token ev w).0 ≡ ok d
    → ((github_by_token_hash (hash_of token) w).0 ≡ ok (some d.monitor)) × IsAlert ev d
ingest-IsAlert hash_of now token ev w {d = d} h =
    let (m, found, acted) = ingest-for_monitor hash_of now token ev w h in
    let same = for_monitor-decided now ev m (github_by_token_hash (hash_of token) w).1 in
    let made : d ≡ decided ev m = ground arith in (ground arith, decided-IsAlert ev m made)

-- Once the token is recognised the call answers, and the same, whichever statements fail after that: a
-- broken history or status write never loses an alert.
pub ingest-decided :
    (hash_of : Text → Text) (now : ℕ) (token : Text) (ev : Event) (w : World Tables) (m : Monitor)
    → is_empty token ≡ false
    → (github_by_token_hash (hash_of token) w).0 ≡ ok (some m)
    → (ingest hash_of now token ev w).0 ≡ ok (decided ev m)
unfolding ingest
ingest-decided hash_of now token ev w m given found =
    ground (arith, for_monitor-decided now ev m (github_by_token_hash (hash_of token) w).1)
