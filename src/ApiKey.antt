-- ===== src/ApiKey.antt =====
-- Keys for machines: backend/internal/domain/apikey/apikey.go, and the statements of
-- backend/internal/adapter/postgres/apikey_repo.go. The hash is a parameter; the random part of a
-- secret is an argument, none if it cannot be drawn, and so is the new row's id.
pub mod Issuing
pub mod Verifying
pub mod Lifecycle
mod Tests
use beaconpulse.Prelude.{
  take, ℕ, ◌+◌, Bool, true, false, not, ◌&&◌, ◌||◌, Option, none, some, List, [], ◌∷◌, ◌++◌, ltb,
  leb, ◌==◌, if◌then◌else◌, any, find, String, is_some,
}
use beaconpulse.Text.{Text, codes, text_eq, is_empty, trim_space, has_prefix}
use beaconpulse.World.{
  AppError, Entry, Result, ok, err, M, ◌>>=◌, ◌>>◌, and_then, pure, throw, best_effort, guard, db,
  record_audit, forbidden, unauthorized, not_found, new_error, validation_error, internal_error,
}
use beaconpulse.Role
use beaconpulse.Role.{Role, owner, admin, member}

-- A key; `hash` is the column that the API never returns.
pub record Key : Type 0 where
  pub id : ℕ
  pub org : ℕ
  pub created_by : Option ℕ
  pub name : Text
  pub hash : Text
  pub prefix : Text
  pub role : Role
  pub created_at : ℕ
  pub expires_at : Option ℕ
  pub revoked_at : Option ℕ
  pub last_used_at : Option ℕ

pub record Keys : Type 0 where
  pub rows : List Key

pub record Actor : Type 0 where
  pub user : ℕ
  pub org : ℕ
  pub role : Role

-- `Prefix`
abbrev pub key_prefix : Text
key_prefix = codes "bp_"

abbrev display_prefix_len : ℕ
display_prefix_len = 12

abbrev after : Option ℕ → ℕ → Bool
after none now = false
after (some t) now = ltb t now

-- Key.Active
unfoldable pub active : Key → ℕ → Bool
active k now = not (is_some k.revoked_at) && not (after k.expires_at now)

-- `rank` of a role; a string that names none ranks lowest.
abbrev pub rank : Role → ℕ
rank owner = 3
rank admin = 2
rank member = 1
rank _ = 0

unfoldable pub looks : Text → Bool
looks token = has_prefix token key_prefix

-- `id` is the primary key and `key_hash` is unique.
unfoldable pub insert_key : Key → Keys → Result (Unit {0}) × Keys
insert_key k t =
    if any (λ r. r.id == k.id || text_eq r.hash k.hash) t.rows
    then (err internal_error, t)
    else (ok tt, record t { rows = k ∷ t.rows })

unfoldable pub create_key : Key → M Keys (Unit {0})
create_key k = db (insert_key k)

unfoldable pub row_of_hash : Text → List Key → Option Key
row_of_hash h rows = find (λ r. text_eq r.hash h) rows

unfoldable pub by_hash : Text → M Keys (Option Key)
by_hash h = db (λ t. (ok (row_of_hash h t.rows), t))

abbrev first_revocation : Option ℕ → ℕ → Option ℕ
first_revocation none at = some at
first_revocation (some t) at = some t

-- `SET revoked_at = COALESCE(revoked_at, $3) WHERE id = $1 AND org_id = $2`, on one row.
abbrev revoked_row : ℕ → ℕ → ℕ → Key → Key
revoked_row org id at k =
    if k.id == id && k.org == org
    then record k { revoked_at = first_revocation k.revoked_at at }
    else k

unfoldable pub revoke_rows : ℕ → ℕ → ℕ → List Key → List Key
revoke_rows org id at [] = []
revoke_rows org id at (k ∷ ks) = revoked_row org id at k ∷ revoke_rows org id at ks

unfoldable pub revoke_tx : ℕ → ℕ → ℕ → Keys → Result (Unit {0}) × Keys
revoke_tx org id at t =
    if any (λ k. k.id == id && k.org == org) t.rows
    then (ok tt, record t { rows = revoke_rows org id at t.rows })
    else (err (new_error not_found "API key not found"), t)

unfoldable pub revoke_key : ℕ → ℕ → ℕ → M Keys (Unit {0})
revoke_key org id at = db (revoke_tx org id at)

-- One hour.
abbrev last_used_resolution : ℕ
last_used_resolution = 3600

abbrev is_stale : Option ℕ → ℕ → Bool
is_stale none at = true
is_stale (some t) at = ltb (t + last_used_resolution) at

unfoldable pub touch_rows : ℕ → ℕ → List Key → List Key
touch_rows id at [] = []
touch_rows id at (k ∷ ks) =
    (if k.id == id && is_stale k.last_used_at at then record k { last_used_at = some at } else k)
    ∷ touch_rows id at ks

unfoldable pub touch_last_used : ℕ → ℕ → M Keys (Unit {0})
touch_last_used id at = db (λ t. (ok tt, record t { rows = touch_rows id at t.rows }))

pub record CreateInput : Type 0 where
  pub name : Text
  pub role : Option Role
  pub expires_at : Option ℕ

abbrev role_or : Option Role → Role → Role
role_or none r = r
role_or (some s) r = s

abbrev in_future : Option ℕ → ℕ → Bool
in_future none now = true
in_future (some t) now = ltb now t

pub record Verified : Type 0 where
  pub key_id : ℕ
  pub org : ℕ
  pub role : Role

abbrev pub invalid_key : AppError
invalid_key = new_error unauthorized "invalid API key"

abbrev key_entry : String → Actor → ℕ → Entry
key_entry action actor id = record {
  action = action;
  org = actor.org;
  user = some actor.user;
  resource = id;
}

-- Generate's read of random bytes, which may fail.
abbrev random_part : Option Text → M Keys Text
random_part none = throw internal_error
random_part (some fresh) = pure fresh

module _ (hash_of : Text → Text) where
  -- Generate: the secret, its hash and what is shown of it.
  unfoldable pub generate : Text → Text × Text × Text
  generate fresh = (
    key_prefix ++ fresh,
    hash_of (key_prefix ++ fresh),
    take display_prefix_len (key_prefix ++ fresh),
  )

  unfoldable pub issued : Text → ℕ → ℕ → Actor → CreateInput → Text → Key
  issued fresh id now actor input name = record {
    id = id;
    org = actor.org;
    created_by = some actor.user;
    name = name;
    hash = (generate fresh).1;
    prefix = (generate fresh).2;
    role = role_or input.role actor.role;
    created_at = now;
    expires_at = input.expires_at;
    revoked_at = none;
    last_used_at = none;
  }

  -- Issue; an empty role in the input is none, and so is a random part that cannot be drawn.
  unfoldable pub issue : Option Text → ℕ → ℕ → Actor → CreateInput → M Keys (Key × Text)
  issue drawn id now actor input = do
    guard (Role.can_administer actor.role)
        (new_error forbidden "only owners and admins can create API keys")
    let name = trim_space input.name
    guard (not (is_empty name)) (validation_error "a name is required" ("name" ∷ []))
    guard (leb (rank (role_or input.role actor.role)) (rank actor.role))
        (validation_error "a key cannot have more access than you do" ("role" ∷ []))
    guard (in_future input.expires_at now)
        (validation_error "expiry must be in the future" ("expires_at" ∷ []))
    fresh ← random_part drawn
    let key = issued fresh id now actor input name
    create_key key
    record_audit (key_entry "apikey.created" actor id)
    pure (key, (generate fresh).0)

  -- The last part of Verify, for the row that the lookup found.
  unfoldable pub admit : ℕ → Result (Option Key) → M Keys Verified
  admit now (err e) = throw invalid_key
  admit now (ok none) = throw invalid_key
  admit now (ok (some k)) =
      if active k now
      then (do
        touched ← best_effort (touch_last_used k.id now)
        pure (record { key_id = k.id; org = k.org; role = k.role }))
      else throw invalid_key

  unfoldable pub verify : ℕ → Text → M Keys Verified
  verify now secret = do
    guard (looks secret) invalid_key
    found ← best_effort (by_hash (hash_of secret))
    admit now found

unfoldable pub revoke : ℕ → Actor → ℕ → M Keys (Unit {0})
revoke now actor id = do
  guard (Role.can_administer actor.role)
      (new_error forbidden "only owners and admins can revoke API keys")
  revoke_key actor.org id now
  record_audit (key_entry "apikey.revoked" actor id)
