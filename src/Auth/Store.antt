-- ===== src/Auth/Store.antt =====
-- The statements on organizations, users and refresh tokens:
-- backend/internal/adapter/postgres/user_repo.go and refresh_token_repo.go, with the constraints and
-- unique indexes of backend/migrations. The bounds on lengths of names, which count characters, are
-- left out. `outbox` holds the letters that were handed to the mail relay.
use beaconpulse.Text.{has_length, text_eq, Text, is_empty, contains_byte, to_lower}
use beaconpulse.Prelude.{
  ltb, filter, find, is_some, length, any, not, Bool, List, Option, String, ℕ, ◌==◌, ◌&&◌, ◌||◌,
  ◌∷◌, [], none, some, false, if◌then◌else◌,
}
use beaconpulse.Role
use beaconpulse.Role.{RefreshToken}
use beaconpulse.Auth.{Organization, User}
use beaconpulse.World.{
  Entry, internal_error, db, new_error, AppError, M, Result, ok, err, conflict, not_found,
}
use beaconpulse.Slug.Laws.{is_slug}

pub record OrgRow : Type 0 where
  pub org : Organization
  pub status_page_slug : Option Text
  pub deleted : Bool

pub record UserRow : Type 0 where
  pub user : User
  pub deleted : Bool

-- A letter to a person with a link.
pub record Mail : Type 0 where
  pub subject : String
  pub to : Text
  pub name : Text
  pub link : Text

pub record Accounts : Type 0 where
  pub orgs : List OrgRow
  pub users : List UserRow
  pub tokens : List RefreshToken
  pub outbox : List Mail

-- `ux_organizations_slug`
unfoldable pub slug_taken : Text → List OrgRow → Bool
slug_taken slug rows = any (λ r. not r.deleted && text_eq r.org.slug slug) rows

abbrev is_email : Text → Bool
is_email [] = false
is_email (c ∷ s) = not (c == b'@') && contains_byte s b'@'

-- The CHECK constraints of organizations and users.
unfoldable pub org_checks : Organization → Bool
org_checks o = has_length 200 o.name && is_slug o.slug

unfoldable pub user_checks : User → Bool
user_checks u =
    is_email u.email
    && has_length 200 u.name
    && Role.valid u.role
    && not (is_empty u.password_hash && is_empty u.google_sub && is_empty u.oidc_sub)

-- `ux_users_email`
unfoldable pub email_taken : Text → List UserRow → Bool
email_taken email rows =
    any (λ r. not r.deleted && text_eq (to_lower r.user.email) (to_lower email)) rows

-- A unique index on a column that may be null.
abbrev same_subject : Text → Text → Bool
same_subject a b = not (is_empty a) && text_eq a b

unfoldable pub subject_taken : User → List UserRow → Bool
subject_taken u rows =
    any
      (λ r. same_subject r.user.google_sub u.google_sub || same_subject r.user.oidc_sub u.oidc_sub)
      rows

abbrev insert_owner : User → Accounts → Accounts → Result (Unit {0}) × Accounts
insert_owner u before t =
    if not (user_checks u) || any (λ r. r.user.id == u.id) t.users
    then (err internal_error, before)
    else if email_taken u.email t.users
    then (err (new_error conflict "an account with that email already exists"), before)
    else if subject_taken u t.users
    then (err internal_error, before)
    else (ok tt, record t { users = record { user = u; deleted = false } ∷ t.users })

abbrev org_row : Organization → OrgRow
org_row o = record { org = o; status_page_slug = none; deleted = false }

-- Both rows or neither.
unfoldable pub create_tx : Organization → User → Accounts → Result (Unit {0}) × Accounts
create_tx o u t =
    if not (org_checks o) || any (λ r. r.org.id == o.id) t.orgs
    then (err internal_error, t)
    else if slug_taken o.slug t.orgs
    then (err (new_error conflict "an organization with that name already exists"), t)
    else insert_owner u t (record t { orgs = org_row o ∷ t.orgs })

unfoldable pub create_org_and_owner : Organization → User → M Accounts (Unit {0})
create_org_and_owner o u = db (create_tx o u)

unfoldable pub is_user : ℕ → UserRow → Bool
is_user id r = r.user.id == id && not r.deleted

unfoldable pub has_email : Text → UserRow → Bool
has_email email r = text_eq (to_lower r.user.email) (to_lower email) && not r.deleted

abbrev pub user_missing : AppError
user_missing = new_error not_found "user not found"

abbrev pub user_result : Option UserRow → Result User
user_result none = err user_missing
user_result (some r) = ok r.user

unfoldable pub get_user_by_id : ℕ → M Accounts User
get_user_by_id id = db (λ t. (user_result (find (is_user id) t.users), t))

unfoldable pub get_user_by_email : Text → M Accounts User
get_user_by_email email = db (λ t. (user_result (find (has_email email) t.users), t))

unfoldable pub edit_users : (UserRow → Bool) → (User → User) → List UserRow → List UserRow
edit_users p f [] = []
edit_users p f (r ∷ rs) = (if p r then record r { user = f r.user } else r) ∷ edit_users p f rs

abbrev pub edited : (UserRow → Bool) → (User → User) → Accounts → Accounts
edited p f t = record t { users = edit_users p f t.users }

-- `WHERE id = $1`, of a deleted user too.
unfoldable pub touch_last_login : ℕ → ℕ → M Accounts (Unit {0})
touch_last_login now id =
    db (λ t. (ok tt, edited (λ r. r.user.id == id) (λ u. record u { last_login_at = some now }) t))

unfoldable pub slug_exists : Text → M Accounts Bool
slug_exists slug = db (λ t. (ok (any (λ r. not r.deleted && uses r) t.orgs), t))
  where
    uses : OrgRow → Bool
    uses r =
        text_eq slug r.org.slug
        || elim r.status_page_slug [ none ↦ false | some s ↦ text_eq slug s ]

unfoldable pub link_tx : ℕ → Text → Accounts → Result (Unit {0}) × Accounts
link_tx id sub t =
    if any (is_user id) t.users
      && any (λ r. not (r.user.id == id) && same_subject r.user.google_sub sub) t.users
    then (err (new_error conflict "this Google account is already linked to another user"), t)
    else (ok tt, edited (is_user id) (λ u. record u { google_sub = sub }) t)

unfoldable pub link_google_sub : ℕ → Text → M Accounts (Unit {0})
link_google_sub id sub = db (link_tx id sub)

unfoldable pub password_tx : ℕ → Text → Accounts → Result (Unit {0}) × Accounts
password_tx id hash t =
    if any (is_user id) t.users
    then (ok tt, edited (is_user id) (λ u. record u { password_hash = hash }) t)
    else (err user_missing, t)

unfoldable pub set_password : ℕ → Text → M Accounts (Unit {0})
set_password id hash = db (password_tx id hash)

abbrev pub first_time : ℕ → Option ℕ → Option ℕ
first_time now none = some now
first_time now (some t) = some t

unfoldable pub mark_email_verified : ℕ → ℕ → M Accounts (Unit {0})
mark_email_verified now id = db (λ t. (
  ok tt,
  edited (is_user id) (λ u. record u { email_verified_at = first_time now u.email_verified_at }) t,
))

-- An entry about an organization, or by one of its users.
abbrev by_user : Option ℕ → ℕ → Bool
by_user none id = false
by_user (some u) id = u == id

unfoldable pub is_trace : ℕ → List UserRow → Entry → Bool
is_trace org us e = e.org == org || any (λ r. r.user.org == org && by_user e.user r.user.id) us

-- The audit trail goes first, then the organization, from which the foreign keys of users and refresh
-- tokens cascade; without the organization the transaction is rolled back.
unfoldable pub erase_org_tx :
    ℕ → Accounts × List Entry → Result (Unit {0}) × (Accounts × List Entry)
erase_org_tx org (t, log) =
    if any (λ r. r.org.id == org) t.orgs
    then (
      ok tt,
      (
        record t {
          orgs = filter (λ r. not (r.org.id == org)) t.orgs;
          users = filter (λ r. not (r.user.org == org)) t.users;
          tokens =
              filter (λ k. not (any (λ r. r.user.id == k.user && r.user.org == org) t.users))
                t.tokens;
        },
        filter (λ e. not (is_trace org t.users e)) log,
      ),
    )
    else (err (new_error not_found "organization not found"), (t, log))

-- RefreshTokenRepository
unfoldable pub hash_is : Text → RefreshToken → Bool
hash_is h k = text_eq k.token_hash h

unfoldable pub insert_token : RefreshToken → Accounts → Result (Unit {0}) × Accounts
insert_token k t =
    if any (λ r. r.id == k.id) t.tokens
      || any (hash_is k.token_hash) t.tokens
      || not (any (λ r. r.user.id == k.user) t.users)
    then (err internal_error, t)
    else (ok tt, record t { tokens = k ∷ t.tokens })

unfoldable pub create_token : RefreshToken → M Accounts (Unit {0})
create_token k = db (insert_token k)

abbrev token_result : Option RefreshToken → Result RefreshToken
token_result none = err (new_error not_found "refresh token not found")
token_result (some k) = ok k

unfoldable pub get_by_hash : Text → M Accounts RefreshToken
get_by_hash h = db (λ t. (token_result (find (hash_is h) t.tokens), t))

-- `SET revoked_at = now() WHERE … AND revoked_at IS NULL`
unfoldable pub revoke_where : (RefreshToken → Bool) → ℕ → List RefreshToken → List RefreshToken
revoke_where p now [] = []
revoke_where p now (k ∷ ks) =
    (if p k && not (is_some k.revoked_at) then record k { revoked_at = some now } else k)
    ∷ revoke_where p now ks

unfoldable pub revoke_token : ℕ → ℕ → M Accounts (Unit {0})
revoke_token now id =
    db (λ t. (ok tt, record t { tokens = revoke_where (λ k. k.id == id) now t.tokens }))

unfoldable pub revoke_all_for_user : ℕ → ℕ → M Accounts (Unit {0})
revoke_all_for_user now user =
    db (λ t. (ok tt, record t { tokens = revoke_where (λ k. k.user == user) now t.tokens }))

unfoldable pub delete_expired : ℕ → M Accounts ℕ
delete_expired now = db (λ t. (
  ok (length (filter (λ k. ltb k.expires_at now) t.tokens)),
  record t { tokens = filter (λ k. not (ltb k.expires_at now)) t.tokens },
))
