-- ===== src/Auth/Logins.antt =====
-- What a login that succeeds has checked and hands out.
use beaconpulse.Text.{Text}
use beaconpulse.World.Rules.{result-bind}
use beaconpulse.Auth.Names.{normalize_email}
use beaconpulse.Auth.Rotation.{look_up-ok}
use beaconpulse.Auth.Sessions.{
  bad_credentials, Session, check_credentials, of_option, complete_login, enter, issue_tokens,
  login,
}
use beaconpulse.Prelude.{sym, ap, arith, ℕ, ◌∙◌, ◌≡◌, refl, some, true}
use beaconpulse.World.{record_audit, World, ok}
use beaconpulse.Auth.{
  issue_access_token, generate_refresh_token, has_password, User, TokenManager, Draw,
}
use beaconpulse.Auth.Store.{get_user_by_email, Accounts}

pub record IsAuthenticated (m : TokenManager) (now : ℕ) (draw : Draw) (email password : Text)
    (w : World Accounts) (session : Session) : Type 0 where
  pub found : (get_user_by_email (normalize_email email) w).0 ≡ ok session.user
  pub has_hash : has_password session.user ≡ true
  pub matched : m.crypto.check_password session.user.password_hash password ≡ some true
  pub active : session.user.is_active ≡ true
  pub access : issue_access_token m now draw.access_id session.user ≡ some session.access_token
  pub drawn : draw.refresh_text ≡ some session.refresh_token

module _ (m : TokenManager) (now : ℕ) (draw : Draw) where
  issue_tokens-parts :
      (u : User) (w : World Accounts) {session : Session}
      → (issue_tokens m now draw u w).0 ≡ ok session
      → (issue_access_token m now draw.access_id u ≡ some session.access_token)
        × (draw.refresh_text ≡ some session.refresh_token)
        × (session.user ≡ u)
  unfolding issue_tokens of_option generate_refresh_token
  issue_tokens-parts u w {session = session} h = ground arith

  complete_login-issues :
      (u : User) (w : World Accounts)
      → (complete_login m now draw u w).0 ≡ (issue_tokens m now draw u w).0
  unfolding complete_login record_audit
  complete_login-issues u w = result-bind (issue_tokens m now draw u) _ w (λ a w'. refl)

  enter-steps :
      (password : Text) (u : User) (w : World Accounts) {session : Session}
      → (enter m now draw password u w).0 ≡ ok session
      → (has_password u ≡ true)
        × (m.crypto.check_password u.password_hash password ≡ some true)
        × (u.is_active ≡ true)
        × ((issue_tokens m now draw u w).0 ≡ ok session)
  unfolding enter check_credentials of_option
  enter-steps password u w {session = session} h = ground (arith, complete_login-issues u w)

  -- A password login succeeds only for the user of the address, who has a password that the hasher
  -- accepts and is active; its access token is the one signed for that user.
  pub login-IsAuthenticated :
      (email password : Text) (w : World Accounts) {session : Session}
      → (login m now draw email password w).0 ≡ ok session
      → IsAuthenticated m now draw email password w session
  unfolding login
  login-IsAuthenticated email password w {session = session} h =
      let (u, got, entered, same) = look_up-ok _ bad_credentials (enter m now draw password) w h in
      let (has, matched, active, issued) = enter-steps password u _ entered in
      let (access, drawn, user) = issue_tokens-parts u _ issued in
      record {
        found = got ∙ ap ok (sym user);
        has_hash = ground (arith, user, has);
        matched = ground (arith, user, matched);
        active = ground (arith, user, active);
        access = ground (arith, user, access);
        drawn = drawn;
      }
