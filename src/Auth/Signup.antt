-- ===== src/Auth/Signup.antt =====
-- Opening an account: Register, and the sign-ins with Google, Apple and other providers, of
-- backend/internal/domain/auth/service.go. `Fresh` holds the ids of the new rows and what each attempt
-- at a slug draws.
use beaconpulse.Text.{codes, Text, is_empty, trim_space}
use beaconpulse.Auth.Names.{next_candidate, derive_org_name, display_name, normalize_email}
use beaconpulse.Auth.Sessions.{
  user_entry, complete_login, look_up, deactivated, issue_tokens, unauthorised, of_option, Session,
}
use beaconpulse.Slug.{make}
use beaconpulse.Prelude.{
  true, zero, suc, length, leb, not, suc, true, ◌∷◌, Bool, String, [], Option, ℕ, none, some,
  if◌then◌else◌,
}
use beaconpulse.World.{
  internal_error, record_audit, best_effort, guard, new_error, pure, throw, validation_error,
  AppError, M, ◌>>=◌, ◌>>◌, forbidden, conflict,
}
use beaconpulse.Role.{owner}
use beaconpulse.Auth.{email_verified, Draw, User, Organization}
use beaconpulse.Auth.Store.{
  get_user_by_email, mark_email_verified, slug_exists, create_org_and_owner, link_google_sub,
  Accounts,
}
use beaconpulse.Auth.Policy.{EmailPolicy, check}
use beaconpulse.Auth.Letters.{send_verification, send_welcome, Services, Identity}

pub record Fresh : Type 0 where
  pub org : ℕ
  pub user : ℕ
  pub suffix : ℕ → Text
  pub draw : Draw

pub record RegisterInput : Type 0 where
  pub org_name : Text
  pub email : Text
  pub password : Text
  pub name : Text

abbrev no_slug : AppError
no_slug =
    new_error conflict
      "could not allocate a unique organization slug; please choose a different name"

abbrev pub short_password : AppError
short_password = validation_error "password must be at least 8 characters" ("password" ∷ [])

-- The loop of uniqueOrgSlug, for the attempts that are left.
unfoldable pub allocate_slug : (ℕ → Text) → Text → ℕ → Text → M Accounts Text
allocate_slug suffix base zero candidate = throw no_slug
allocate_slug suffix base (suc left) candidate = do
  taken ← slug_exists candidate
  (if taken
      then allocate_slug suffix base left (next_candidate base (suffix left))
      else pure candidate)

unfoldable pub unique_org_slug : (ℕ → Text) → Text → M Accounts Text
unique_org_slug suffix name = let base = make name (codes "org") in allocate_slug suffix base 5 base

-- An account with an owner, before its credential is set.
abbrev pub blank_owner : Fresh → ℕ → Text → Text → User
blank_owner fresh now email name = record {
  id = fresh.user;
  org = fresh.org;
  email = email;
  password_hash = [];
  google_sub = [];
  oidc_sub = [];
  name = name;
  role = owner;
  is_active = true;
  email_verified_at = none;
  last_login_at = none;
  created_at = now;
}

abbrev pub new_org : Fresh → Text → Text → Organization
new_org fresh name slug = record { id = fresh.org; name = name; slug = slug }

unfoldable pub of_check : Option AppError → M Accounts (Unit {0})
of_check none = pure tt
of_check (some e) = throw e

-- No policy, no check.
unfoldable pub vet_with : Option EmailPolicy → Text → M Accounts (Unit {0})
vet_with none email = pure tt
vet_with (some p) email = of_check (check p email)

-- `Verify` of a provider that may be switched off.
unfoldable pub verify_with :
    Option (Text → Option Identity) → Text → String → String → M Accounts Identity
verify_with none token off wrong = throw (new_error forbidden off)
verify_with (some verify) token off wrong = of_option (verify token) (unauthorised wrong)

module _ (s : Services) (now : ℕ) (fresh : Fresh) where
  -- The rows, the tokens and the entry in the audit log, of every kind of sign-up.
  unfoldable pub open_account : Text → Text → User → M Accounts Session
  open_account name shown u = do
    slug ← unique_org_slug fresh.suffix name
    create_org_and_owner (new_org fresh shown slug) u
    session ← issue_tokens s.manager now fresh.draw u
    record_audit (user_entry "user.registered" u)
    pure session

  unfoldable pub vet_email : Text → M Accounts (Unit {0})
  vet_email email = vet_with s.policy email

  abbrev registered_owner : RegisterInput → Text → User
  registered_owner input hash =
      record (blank_owner fresh now (normalize_email input.email) (trim_space input.name)) {
        password_hash = hash;
      }

  unfoldable pub register : RegisterInput → M Accounts Session
  register input = do
    vet_email (normalize_email input.email)
    guard (leb 8 (length input.password)) short_password
    hash ← of_option (s.manager.crypto.hash_password input.password) internal_error
    session ← open_account input.org_name (trim_space input.org_name) (registered_owner input hash)
    send_verification s now fresh.draw.link_id session.user
    pure session

  -- The end of a first sign-in with a provider, which has verified the address.
  unfoldable pub admit_new : User → M Accounts Session
  admit_new u = do
    let org_name = derive_org_name u.name
    session ← open_account org_name org_name (record u { email_verified_at = some now })
    send_welcome s now session.user
    pure session

  -- registerGoogleUser
  unfoldable pub register_google_user : Identity → Text → M Accounts Session
  register_google_user who email =
      admit_new (record (blank_owner fresh now email (display_name who.name email)) {
        google_sub = who.subject;
      })

  -- registerOIDCUser
  unfoldable pub register_oidc_user : Text → Text → Text → M Accounts Session
  register_oidc_user subject email name =
      admit_new
        (record (blank_owner fresh now email (display_name name email)) { oidc_sub = subject })

  -- An address that a provider verified is proven, whether or not the write succeeds.
  unfoldable pub prove_email : User → M Accounts (Unit {0})
  prove_email u =
      if email_verified u
      then pure tt
      else (do marked ← best_effort (mark_email_verified now u.id); pure tt)

  -- Links the identity the first time that an account uses it.
  unfoldable pub link_google : Text → User → M Accounts User
  link_google subject u =
      if is_empty u.google_sub
      then (do link_google_sub u.id subject; pure (record u { google_sub = subject }))
      else pure u

  unfoldable pub enter_google : Identity → User → M Accounts Session
  enter_google who u = do
    guard u.is_active deactivated
    linked ← link_google who.subject u
    prove_email linked
    complete_login s.manager now fresh.draw linked

  unfoldable pub google_verified : Identity → M Accounts Session
  google_verified who = do
    guard who.email_verified (new_error forbidden "your Google account's email is not verified")
    let email = normalize_email who.email
    guard (not (is_empty email)) (unauthorised "Google did not return an email address")
    look_up (get_user_by_email email) (register_google_user who email) (enter_google who)

  unfoldable pub login_with_google : Text → M Accounts Session
  login_with_google token = do
    who ← verify_with s.google token "Google sign-in is not enabled" "invalid Google sign-in"
    google_verified who

  unfoldable pub enter_oidc : User → M Accounts Session
  enter_oidc u = do
    guard u.is_active deactivated
    prove_email u
    complete_login s.manager now fresh.draw u

  -- LoginWithOIDC; the name of the provider only labels messages.
  unfoldable pub login_with_oidc : Text → Text → Text → Bool → M Accounts Session
  login_with_oidc subject address name verified = do
    guard verified (new_error forbidden "your account's email is not verified")
    let email = normalize_email address
    guard (not (is_empty email)) (unauthorised "the provider did not return an email address")
    look_up (get_user_by_email email) (register_oidc_user subject email name) enter_oidc

  unfoldable pub login_with_apple : Text → M Accounts Session
  login_with_apple token = do
    who ← verify_with s.apple token "Apple sign-in is not enabled" "invalid Apple sign-in"
    login_with_oidc who.subject who.email [] who.email_verified
