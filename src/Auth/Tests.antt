-- ===== src/Auth/Tests.antt =====
-- An account with one refresh token: refreshed, signed in and reset, with identities for the hashes.
use beaconpulse.Text.{Text, codes, text_eq, drop_while, trim, trim_space, to_lower}
use beaconpulse.Auth.Rotation.{refresh-refresh}
use beaconpulse.Auth.Resets.Once.{reset_password-refresh, reset_password-reset_password}
use beaconpulse.Auth.Registers.{
  distinct_slugs, serve_all-IsConsistent, distinct_emails, IsConsistent, is_consistent,
}
use beaconpulse.Auth.Recovery.{
  finish_reset, store_password, replace_password, matches, reset_for, reset_claimed, reset_password,
}
use beaconpulse.Auth.Logins.{login-IsAuthenticated, IsAuthenticated}
use beaconpulse.Auth.Sessions.{
  complete_login, issue_tokens, check_credentials, reissue, enter, rotate, refresh_stored, on_error,
  on_found, look_up, of_option, Session, login, refresh,
}
use beaconpulse.Prelude.{
  arith, find, ◌≡◌, ◌≢◌, refl, none, some, [], ◌∷◌, true, false, if◌then◌else◌,
}
use beaconpulse.World.{record_audit, db, AppError, World, ok, err}
use beaconpulse.Role.{is_usable, RefreshToken, owner}
use beaconpulse.Auth.{
  generate_refresh_token, issue_proxy_token, issue_access_token, password_fingerprint, parse_typed,
  reset_type, User, TokenManager, Draw, Claims, Crypto,
}
use beaconpulse.Auth.Store.{
  insert_token, create_token, mark_email_verified, revoke_all_for_user, touch_last_login,
  edit_users, password_tx, revoke_where, set_password, revoke_token, has_email, is_user,
  get_by_hash, get_user_by_email, get_user_by_id, slug_taken, email_taken, hash_is, Accounts,
}
use beaconpulse.Auth.Letters.{Services}
use beaconpulse.Auth.Histories.{serve_all, logging_out, resetting}

abbrev holder : User
holder = record {
  id = 7;
  org = 1;
  email = codes "a@b.c";
  password_hash = codes "#password";
  google_sub = [];
  oidc_sub = [];
  name = codes "Ann";
  role = owner;
  is_active = true;
  email_verified_at = some 1;
  last_login_at = none;
  created_at = 1;
}

abbrev link_claims : Claims
link_claims = record {
  org = none;
  role = none;
  kind = reset_type;
  password_fp = codes "#password";
  email = [];
  subject = some 7;
  token_id = 0;
  issued_at = 5;
  not_before = 5;
  expires_at = 3605;
  issuer = codes "beacon";
}

abbrev crypto : Crypto
crypto = record {
  sign = λ c. some c.kind;
  parse = λ issuer now raw. if text_eq raw (codes "link") then some link_claims else none;
  hmac = λ s. s;
  sha256_hex = λ s. s;
  hash_password = λ p. some (b'#' ∷ p);
  check_password = λ h p. some (text_eq h (b'#' ∷ p));
}

abbrev manager : TokenManager
manager = record { crypto = crypto; access_ttl = 900; refresh_ttl = 1000 }

abbrev services : Services
services = record {
  manager = manager;
  policy = none;
  google = none;
  apple = none;
  has_mailer = true;
  base_url = codes "https://x";
}

abbrev draw : Draw
draw = record {
  access_id = 1;
  proxy_id = 2;
  link_id = 3;
  refresh_id = 4;
  refresh_text = some (codes "new");
}

abbrev old_row : RefreshToken
old_row = record { id = 1; user = 7; token_hash = codes "old"; expires_at = 500; revoked_at = none }

abbrev start : World Accounts
start = record {
  tables = record {
    orgs =
        record {
          org = record { id = 1; name = codes "Acme"; slug = codes "acme" };
          status_page_slug = none;
          deleted = false;
        }
        ∷ [];
    users = record { user = holder; deleted = false } ∷ [];
    tokens = old_row ∷ [];
    outbox = [];
  };
  faults = [];
  audit = [];
}

abbrev session : Session
session = record {
  access_token = codes "access";
  refresh_token = codes "new";
  proxy_token = codes "proxy";
  expires_in = 900;
  user = holder;
}

refreshed : (refresh manager 10 draw (codes "old") start).0 ≡ ok session
unfolding refresh look_up of_option on_found on_error get_by_hash db hash_is text_eq refresh_stored
    is_usable get_user_by_id is_user rotate revoke_token revoke_where reissue issue_tokens
    issue_access_token issue_proxy_token generate_refresh_token create_token insert_token
    record_audit
refreshed = refl

refresh-refresh_example :
    (e : AppError) × ((refresh manager 30 draw (codes "old") (
        serve_all services
          ((20, logging_out draw (codes "new")) ∷ [])
          (refresh manager 10 draw (codes "old") start).1)).0
      ≡ err e)
refresh-refresh_example =
    refresh-refresh services 10 30 draw draw (codes "old") start
      ((20, logging_out draw (codes "new")) ∷ []) refreshed

logged_in : (login manager 10 draw (codes " A@b.c ") (codes "password") start).0 ≡ ok session
unfolding login look_up of_option on_found on_error get_user_by_email has_email db hash_is text_eq
    to_lower trim_space trim drop_while enter check_credentials complete_login is_usable is_user
    issue_tokens touch_last_login edit_users issue_access_token issue_proxy_token
    generate_refresh_token create_token insert_token record_audit
logged_in = refl

login-IsAuthenticated_example :
    IsAuthenticated manager 10 draw (codes " A@b.c ") (codes "password") start session
login-IsAuthenticated_example =
    login-IsAuthenticated manager 10 draw (codes " A@b.c ") (codes "password") start logged_in

parsed : parse_typed manager 10 (codes "link") reset_type ≡ some link_claims
unfolding parse_typed text_eq
parsed = refl

is_found : find (hash_is (codes "old")) (old_row ∷ []) ≡ some old_row
unfolding hash_is text_eq
is_found = refl

reset : (reset_password services 10 (codes "link") (codes "changed!") start).0 ≡ ok tt
unfolding reset_password parse_typed of_option reset_claimed look_up on_found on_error
    get_user_by_id is_user db reset_for matches password_fingerprint text_eq replace_password
    store_password set_password password_tx edit_users revoke_all_for_user revoke_where finish_reset
    mark_email_verified record_audit
reset = refl

reset_password-refresh_example :
    (e : AppError) × ((refresh manager 30 draw (codes "old") (
        serve_all services []
          (reset_password services 10 (codes "link") (codes "changed!") start).1)).0
      ≡ err e)
reset_password-refresh_example =
    reset_password-refresh services 10 30 (codes "link") (codes "changed!") start draw (codes "old")
      [] is_found parsed refl reset

reads_alike :
    (c d : Claims)
    → parse_typed manager 10 (codes "link") reset_type ≡ some c
    → parse_typed manager 30 (codes "link") reset_type ≡ some d
    → c ≡ d
unfolding parse_typed text_eq
reads_alike c d e f = ground arith

is_fresh :
    (c : Claims) (hash : Text)
    → parse_typed manager 10 (codes "link") reset_type ≡ some c
    → crypto.hash_password (codes "changed!") ≡ some hash
    → c.password_fp ≢ password_fingerprint manager 10 hash
unfolding parse_typed text_eq password_fingerprint
is_fresh c hash e f g = ground arith

reset_password-reset_password_example :
    (reset_password services 30
      (codes "link")
      (codes "another!")
      (reset_password services 10 (codes "link") (codes "changed!") start).1).0
    ≢ ok tt
reset_password-reset_password_example =
    reset_password-reset_password services 10 30 (codes "link") (codes "changed!") start
      (codes "another!") reads_alike is_fresh reset

starts_distinct : IsConsistent start.tables
unfolding is_consistent distinct_emails distinct_slugs email_taken slug_taken
starts_distinct = refl

serve_all-IsConsistent_example :
    IsConsistent
      (serve_all services ((10, resetting (codes "link") (codes "changed!")) ∷ []) start).tables
serve_all-IsConsistent_example =
    serve_all-IsConsistent services ((10, resetting (codes "link") (codes "changed!")) ∷ []) start
      starts_distinct
