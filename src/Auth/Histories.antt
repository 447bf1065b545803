-- ===== src/Auth/Histories.antt =====
-- Sequences of calls of the sign-in service, by anyone, with any statements failing; and a predicate on
-- the tables that every statement keeps, which every history therefore keeps.
use beaconpulse.Text.{Text}
use beaconpulse.Auth.Recovery.{
  verify_email, resend_verification, reset_password, request_password_reset,
}
use beaconpulse.Auth.Sessions.{logout, refresh, login}
use beaconpulse.World.Keeping.{Keeps}
use beaconpulse.Prelude.{Bool, List, ℕ, [], ◌∷◌}
use beaconpulse.World.{World}
use beaconpulse.Role.{RefreshToken}
use beaconpulse.Auth.{Organization, User, Draw}
use beaconpulse.Auth.Store.{
  Mail, revoke_all_for_user, revoke_token, create_token, mark_email_verified, set_password,
  link_google_sub, touch_last_login, create_org_and_owner, Accounts,
}
use beaconpulse.Auth.Signup.{
  login_with_oidc, login_with_apple, login_with_google, register, RegisterInput, Fresh,
}
use beaconpulse.Auth.Letters.{hand_over, Services}

pub data Call : Type 0 where
  registering : Fresh → RegisterInput → Call
  logging_in : Draw → Text → Text → Call
  with_google : Fresh → Text → Call
  with_apple : Fresh → Text → Call
  with_oidc : Fresh → Text → Text → Text → Bool → Call
  refreshing : Draw → Text → Call
  logging_out : Draw → Text → Call
  asking_reset : ℕ → Text → Call
  resetting : Text → Text → Call
  asking_link : ℕ → ℕ → Call
  confirming : Text → Call

-- A predicate on the tables that each statement of the service keeps.
pub record IsStable (P : Accounts → Type 0) : Type 0 where
  pub opens : (o : Organization) (u : User) → Keeps P (create_org_and_owner o u)
  pub touches : (now id : ℕ) → Keeps P (touch_last_login now id)
  pub links : (id : ℕ) (sub : Text) → Keeps P (link_google_sub id sub)
  pub sets : (id : ℕ) (hash : Text) → Keeps P (set_password id hash)
  pub marks : (now id : ℕ) → Keeps P (mark_email_verified now id)
  pub issues : (k : RefreshToken) → Keeps P (create_token k)
  pub revokes : (now id : ℕ) → Keeps P (revoke_token now id)
  pub withdraws : (now user : ℕ) → Keeps P (revoke_all_for_user now user)
  pub hands : (letter : Mail) → Keeps P (hand_over letter)

module _ (s : Services) where
  unfoldable pub serve : ℕ → Call → World Accounts → World Accounts
  serve now (registering fresh input) w = (register s now fresh input w).1
  serve now (logging_in draw email password) w = (login s.manager now draw email password w).1
  serve now (with_google fresh token) w = (login_with_google s now fresh token w).1
  serve now (with_apple fresh token) w = (login_with_apple s now fresh token w).1
  serve now (with_oidc fresh sub email name verified) w =
      (login_with_oidc s now fresh sub email name verified w).1
  serve now (refreshing draw text) w = (refresh s.manager now draw text w).1
  serve now (logging_out draw text) w = (logout s.manager now draw text w).1
  serve now (asking_reset id email) w = (request_password_reset s now id email w).1
  serve now (resetting token password) w = (reset_password s now token password w).1
  serve now (asking_link id user) w = (resend_verification s now id user w).1
  serve now (confirming token) w = (verify_email s now token w).1

  -- Each call at its time.
  unfoldable pub serve_all : List (ℕ × Call) → World Accounts → World Accounts
  serve_all [] w = w
  serve_all ((now, c) ∷ cs) w = serve_all cs (serve now c w)
