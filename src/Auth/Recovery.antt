-- ===== src/Auth/Recovery.antt =====
-- Resetting a password and confirming an address by a link that was mailed: the use cases of
-- backend/internal/domain/auth/service.go.
use beaconpulse.Auth.Signup.{short_password}
use beaconpulse.Auth.Names.{normalize_email}
use beaconpulse.Text.{Text, text_eq, equal_fold}
use beaconpulse.Auth.Sessions.{user_entry, look_up, of_option}
use beaconpulse.Prelude.{
  true, false, length, [], leb, not, ◌&&◌, Bool, Option, ℕ, none, some, if◌then◌else◌,
}
use beaconpulse.World.{
  best_effort, internal_error, new_error, pure, record_audit, guard, throw, validation_error,
  AppError, M, ◌>>=◌, ◌>>◌, unavailable,
}
use beaconpulse.Auth.{
  reset_type, email_verified, issue_reset_token, password_fingerprint, verify_type, parse_typed,
  User, Claims,
}
use beaconpulse.Auth.Store.{
  revoke_all_for_user, get_user_by_email, get_user_by_id, set_password, mark_email_verified,
  Accounts,
}
use beaconpulse.Auth.Letters.{send_verification, link_with, post, send_welcome, Services}

-- One hour.
abbrev pub reset_ttl : ℕ
reset_ttl = 3600

abbrev pub invalid_reset : AppError
invalid_reset = validation_error "this reset link is invalid or has expired — request a new one" []

abbrev pub invalid_link : AppError
invalid_link =
    validation_error
      "this confirmation link is invalid or has expired — sign in and request a new one" []

-- The id in the claims of a link.
abbrev subject_of : Option Claims → AppError → M Accounts ℕ
subject_of none e = throw e
subject_of (some c) e = of_option c.subject e

module _ (s : Services) (now : ℕ) where
  unfoldable pub mail_reset : ℕ → User → M Accounts (Unit {0})
  mail_reset id u = if not u.is_active then pure tt else (do
    token ← of_option (issue_reset_token s.manager now id u reset_ttl) internal_error
    post "reset your password" "password.reset_requested" u
        (link_with s now "/reset-password?token=" token))

  unfoldable pub request_password_reset : ℕ → Text → M Accounts (Unit {0})
  request_password_reset id email = do
    guard s.has_mailer (
        new_error unavailable
          "password reset by email is not available on this deployment — contact support")
    look_up (get_user_by_email (normalize_email email)) (pure tt) (mail_reset id)

  -- Whether the link was made for the password that the account has.
  unfoldable pub matches : Claims → User → Bool
  matches c u =
      u.is_active && text_eq c.password_fp (password_fingerprint s.manager now u.password_hash)

  -- Following the link proves that the person reads the inbox.
  unfoldable pub finish_reset : User → M Accounts (Unit {0})
  finish_reset u = do
    marked ← best_effort (mark_email_verified now u.id)
    record_audit (user_entry "password.reset" u)

  -- The new hash, then the withdrawal of every refresh token.
  unfoldable pub store_password : Text → User → M Accounts (Unit {0})
  store_password hash u = do set_password u.id hash; revoke_all_for_user now u.id; finish_reset u

  unfoldable pub replace_password : Text → User → M Accounts (Unit {0})
  replace_password password u = do
    hash ← of_option (s.manager.crypto.hash_password password) internal_error
    store_password hash u

  unfoldable pub reset_for : Claims → Text → User → M Accounts (Unit {0})
  reset_for c password u = do guard (matches c u) invalid_reset; replace_password password u

  unfoldable pub reset_claimed : Text → Claims → M Accounts (Unit {0})
  reset_claimed password c = do
    id ← of_option c.subject invalid_reset
    look_up (get_user_by_id id) (throw invalid_reset) (reset_for c password)

  unfoldable pub reset_password : Text → Text → M Accounts (Unit {0})
  reset_password token password = do
    guard (leb 8 (length password)) short_password
    c ← of_option (parse_typed s.manager now token reset_type) invalid_reset
    reset_claimed password c

  unfoldable pub resend : ℕ → User → M Accounts Bool
  resend link u =
      if email_verified u then pure true else (do send_verification s now link u; pure false)

  -- ResendVerification: whether the address was confirmed before.
  unfoldable pub resend_verification : ℕ → ℕ → M Accounts Bool
  resend_verification link user = do
    guard s.has_mailer
        (new_error unavailable "email isn't configured on this deployment — contact support")
    u ← get_user_by_id user
    resend link u

  unfoldable pub confirm : User → M Accounts (Unit {0})
  confirm u = do
    mark_email_verified now u.id
    record_audit (user_entry "email.verified" u)
    send_welcome s now u

  unfoldable pub confirm_for : Claims → User → M Accounts (Unit {0})
  confirm_for c u = do
    guard (equal_fold c.email u.email) invalid_link
    (if email_verified u then pure tt else confirm u)

  unfoldable pub verify_claimed : Claims → M Accounts (Unit {0})
  verify_claimed c = do
    id ← of_option c.subject invalid_link
    look_up (get_user_by_id id) (throw invalid_link) (confirm_for c)

  unfoldable pub verify_email : Text → M Accounts (Unit {0})
  verify_email token = do
    c ← of_option (parse_typed s.manager now token verify_type) invalid_link
    verify_claimed c
