-- ===== src/Auth/Sessions.antt =====
-- Signing in with a password, refreshing and signing out: the use cases of
-- backend/internal/domain/auth/service.go on existing accounts, and the pair of tokens that each hands
-- out. The clocks of the server and of the database are one.
use beaconpulse.Text.{Text}
use beaconpulse.Auth.Names.{normalize_email}
use beaconpulse.Prelude.{Option, String, ℕ, none, some}
use beaconpulse.Role.{is_usable, RefreshToken}
use beaconpulse.World.{
  Code, record_audit, internal_error, pure, best_effort, guard, throw, M, Result, new_error, ok,
  err, not_found, forbidden, unauthorized, AppError, Entry, ◌>>=◌, ◌>>◌,
}
use beaconpulse.Auth.{
  generate_refresh_token, issue_proxy_token, has_password, proxy_type, issue_access_token,
  parse_typed, Generated, TokenManager, Draw, User,
}
use beaconpulse.Auth.Store.{
  create_token, get_user_by_id, revoke_token, touch_last_login, get_by_hash, get_user_by_email,
  Accounts,
}

-- AuthResult; its `TokenType` is a constant.
pub record Session : Type 0 where
  pub access_token : Text
  pub refresh_token : Text
  pub proxy_token : Text
  pub expires_in : ℕ
  pub user : User

unfoldable pub of_option : {A : Type 0} → Option A → AppError → M Accounts A
of_option none e = throw e
of_option (some a) e = pure a

-- What follows a lookup: an answer for a row that is not there, and the other errors as they are.
unfoldable pub on_error : {B : Type 0} → Code → AppError → M Accounts B → M Accounts B
on_error not_found e missing = missing
on_error _ e missing = throw e

unfoldable pub on_found :
    {A B : Type 0} → Result A → M Accounts B → (A → M Accounts B) → M Accounts B
unfolding on_error
on_found (ok a) missing k = k a
on_found (err e) missing k = on_error e.code e missing

unfoldable pub look_up :
    {A B : Type 0} → M Accounts A → M Accounts B → (A → M Accounts B) → M Accounts B
look_up m missing k = do found ← best_effort m; on_found found missing k

abbrev pub unauthorised : String → AppError
unauthorised m = new_error unauthorized m

abbrev pub bad_credentials : AppError
bad_credentials = unauthorised "invalid email or password"

abbrev pub bad_refresh : AppError
bad_refresh = unauthorised "invalid or expired refresh token"

abbrev pub deactivated : AppError
deactivated = new_error forbidden "this account has been deactivated"

abbrev pub user_entry : String → User → Entry
user_entry action u = record { action = action; org = u.org; user = some u.id; resource = u.id }

module _ (m : TokenManager) (now : ℕ) (draw : Draw) where
  abbrev pub refresh_row : User → Generated → RefreshToken
  refresh_row u gen = record {
    id = draw.refresh_id;
    user = u.id;
    token_hash = gen.hash;
    expires_at = gen.expires_at;
    revoked_at = none;
  }

  -- issueTokens
  unfoldable pub issue_tokens : User → M Accounts Session
  issue_tokens u = do
    access ← of_option (issue_access_token m now draw.access_id u) internal_error
    proxy ← of_option (issue_proxy_token m now draw.proxy_id u) internal_error
    gen ← of_option (generate_refresh_token m now draw.refresh_text) internal_error
    create_token (refresh_row u gen)
    pure (record {
      access_token = access;
      refresh_token = gen.plaintext;
      proxy_token = proxy;
      expires_in = m.access_ttl;
      user = u;
    })

  -- The end of a sign-in: tokens, then the time of the login, whose failure is only logged.
  unfoldable pub complete_login : User → M Accounts Session
  complete_login u = do
    session ← issue_tokens u
    touched ← best_effort (touch_last_login now u.id)
    record_audit (user_entry "user.login" u)
    pure session

  -- What Login asks of the account that it found.
  unfoldable pub check_credentials : Text → User → M Accounts (Unit {0})
  check_credentials password u = do
    guard (has_password u) (unauthorised "this account uses Google sign-in — continue with Google")
    matched ← of_option (m.crypto.check_password u.password_hash password) internal_error
    guard matched bad_credentials
    guard u.is_active deactivated

  unfoldable pub enter : Text → User → M Accounts Session
  enter password u = check_credentials password u >> complete_login u

  unfoldable pub login : Text → Text → M Accounts Session
  login email password =
      look_up (get_user_by_email (normalize_email email)) (throw bad_credentials) (enter password)

  unfoldable pub reissue : User → M Accounts Session
  reissue u = do
    session ← issue_tokens u
    record_audit (user_entry "token.refreshed" u)
    pure session

  -- Revokes the token that was presented before it issues the next.
  unfoldable pub rotate : RefreshToken → User → M Accounts Session
  rotate stored u = do guard u.is_active deactivated; revoke_token now stored.id; reissue u

  unfoldable pub refresh_stored : RefreshToken → M Accounts Session
  refresh_stored stored = do
    guard (is_usable stored now) bad_refresh
    u ← get_user_by_id stored.user
    rotate stored u

  unfoldable pub refresh : Text → M Accounts Session
  refresh plaintext =
      look_up (get_by_hash (m.crypto.hmac plaintext)) (throw bad_refresh) refresh_stored

  unfoldable pub logout : Text → M Accounts (Unit {0})
  logout plaintext =
      look_up (get_by_hash (m.crypto.hmac plaintext)) (pure tt)
        (λ stored. revoke_token now stored.id)

  unfoldable pub validate_proxy_token : Text → Result (Option ℕ)
  validate_proxy_token raw = elim (parse_typed m now raw proxy_type) [
    | none ↦ err (unauthorised "invalid proxy session")
    | some c ↦ ok c.org
  ]
