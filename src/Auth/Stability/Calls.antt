-- ===== src/Auth/Stability/Calls.antt =====
-- Each call of the sign-in service keeps what each of its statements keeps, and so does every sequence
-- of calls.
use beaconpulse.Text.{Text}
use beaconpulse.Role.{RefreshToken}
use beaconpulse.Auth.Sessions.{
  reissue, check_credentials, complete_login, enter, issue_tokens, login, logout, refresh,
  refresh_stored, rotate,
}
use beaconpulse.Auth.Recovery.{
  finish_reset, store_password, confirm, resend, confirm_for, mail_reset, replace_password,
  request_password_reset, resend_verification, reset_claimed, reset_for, reset_password,
  verify_claimed, verify_email,
}
use beaconpulse.Auth.Signup.{
  RegisterInput, unique_org_slug, vet_email, admit_new, enter_google, enter_oidc, google_verified,
  link_google, login_with_apple, login_with_google, login_with_oidc, open_account, prove_email,
  register, register_google_user, register_oidc_user, Fresh,
}
use beaconpulse.Auth.Letters.{
  post_verification, Identity, post, send_verification, send_welcome, Services,
}
use beaconpulse.Auth.{Claims, User, Draw, TokenManager}
use beaconpulse.Prelude.{List, Bool, Option, String, ℕ, none, some, [], ◌∷◌}
use beaconpulse.World.{World}
use beaconpulse.Auth.Stability.{lookup_rules}
use beaconpulse.Auth.Histories.{
  Call, serve, serve_all, registering, logging_in, with_google, with_apple, with_oidc, refreshing,
  logging_out, asking_reset, resetting, asking_link, confirming,
}
use beaconpulse.World.Keeping.{keeps_rules, Keeps}
use beaconpulse.Auth.Store.{Accounts}
use beaconpulse.Auth.Histories.{IsStable}

module _ (P : Accounts → Type 0) (st : IsStable P) (now : ℕ) where
  module _ (m : TokenManager) (draw : Draw) where
    Keeps-issue_tokens : (u : User) → Keeps P (issue_tokens m now draw u)
    unfolding issue_tokens
    Keeps-issue_tokens u = search (keeps_rules, lookup_rules, st.issues)

    Keeps-complete_login : (u : User) → Keeps P (complete_login m now draw u)
    unfolding complete_login
    Keeps-complete_login u = search (keeps_rules, lookup_rules, st.touches, Keeps-issue_tokens)

    Keeps-enter : (password : Text) (u : User) → Keeps P (enter m now draw password u)
    unfolding enter check_credentials
    Keeps-enter password u = search (keeps_rules, lookup_rules, Keeps-complete_login)

    Keeps-login : (email password : Text) → Keeps P (login m now draw email password)
    unfolding login
    Keeps-login email password = search (keeps_rules, lookup_rules, Keeps-enter)

    pub Keeps-reissue : (u : User) → Keeps P (reissue m now draw u)
    unfolding reissue
    Keeps-reissue u = search (keeps_rules, Keeps-issue_tokens)

    Keeps-rotate : (k : RefreshToken) (u : User) → Keeps P (rotate m now draw k u)
    unfolding rotate
    Keeps-rotate k u = search (keeps_rules, lookup_rules, st.revokes, Keeps-reissue)

    Keeps-refresh_stored : (k : RefreshToken) → Keeps P (refresh_stored m now draw k)
    unfolding refresh_stored
    Keeps-refresh_stored k = search (keeps_rules, lookup_rules, Keeps-rotate)

    Keeps-refresh : (text : Text) → Keeps P (refresh m now draw text)
    unfolding refresh
    Keeps-refresh text = search (keeps_rules, lookup_rules, Keeps-refresh_stored)

    Keeps-logout : (text : Text) → Keeps P (logout m now draw text)
    unfolding logout
    Keeps-logout text = search (keeps_rules, lookup_rules, st.revokes)

  module _ (s : Services) where
    Keeps-post :
        (subject action : String) (u : User) (link : Text) → Keeps P (post subject action u link)
    unfolding post
    Keeps-post subject action u link = search (keeps_rules, lookup_rules, st.hands)

    Keeps-send_welcome : (u : User) → Keeps P (send_welcome s now u)
    unfolding send_welcome
    Keeps-send_welcome u = search (keeps_rules, lookup_rules, Keeps-post)

    Keeps-post_verification :
        (u : User) (token : Option Text) → Keeps P (post_verification s now u token)
    unfolding post_verification
    Keeps-post_verification u none = search keeps_rules
    Keeps-post_verification u (some token) = Keeps-post _ _ _ _

    Keeps-send_verification : (id : ℕ) (u : User) → Keeps P (send_verification s now id u)
    unfolding send_verification
    Keeps-send_verification id u = search (keeps_rules, lookup_rules, Keeps-post_verification)

    module _ (fresh : Fresh) where
      Keeps-open_account :
          (name shown : Text) (u : User) → Keeps P (open_account s now fresh name shown u)
      unfolding open_account unique_org_slug
      Keeps-open_account name shown u =
          search (keeps_rules, lookup_rules, st.opens, Keeps-issue_tokens)

      Keeps-register : (input : RegisterInput) → Keeps P (register s now fresh input)
      unfolding register vet_email
      Keeps-register input =
          search (keeps_rules, lookup_rules, Keeps-open_account, Keeps-send_verification) depth 9

      Keeps-admit_new : (u : User) → Keeps P (admit_new s now fresh u)
      unfolding admit_new
      Keeps-admit_new u = search (keeps_rules, lookup_rules, Keeps-open_account, Keeps-send_welcome)

      Keeps-register_google_user :
          (who : Identity) (email : Text) → Keeps P (register_google_user s now fresh who email)
      unfolding register_google_user
      Keeps-register_google_user who email = search (keeps_rules, lookup_rules, Keeps-admit_new)

      Keeps-register_oidc_user :
          (sub email name : Text) → Keeps P (register_oidc_user s now fresh sub email name)
      unfolding register_oidc_user
      Keeps-register_oidc_user sub email name = search (keeps_rules, lookup_rules, Keeps-admit_new)

      Keeps-prove_email : (u : User) → Keeps P (prove_email s now fresh u)
      unfolding prove_email
      Keeps-prove_email u = search (keeps_rules, lookup_rules, st.marks)

      Keeps-link_google : (sub : Text) (u : User) → Keeps P (link_google s now fresh sub u)
      unfolding link_google
      Keeps-link_google sub u = search (keeps_rules, lookup_rules, st.links)

      Keeps-enter_google : (who : Identity) (u : User) → Keeps P (enter_google s now fresh who u)
      unfolding enter_google
      Keeps-enter_google who u =
          search
            (keeps_rules, lookup_rules, Keeps-link_google, Keeps-prove_email, Keeps-complete_login)

      Keeps-google_verified : (who : Identity) → Keeps P (google_verified s now fresh who)
      unfolding google_verified
      Keeps-google_verified who =
          search (keeps_rules, lookup_rules, Keeps-register_google_user, Keeps-enter_google)

      Keeps-login_with_google : (token : Text) → Keeps P (login_with_google s now fresh token)
      unfolding login_with_google
      Keeps-login_with_google token = search (keeps_rules, lookup_rules, Keeps-google_verified)

      Keeps-enter_oidc : (u : User) → Keeps P (enter_oidc s now fresh u)
      unfolding enter_oidc
      Keeps-enter_oidc u =
          search (keeps_rules, lookup_rules, Keeps-prove_email, Keeps-complete_login)

      Keeps-login_with_oidc :
          (sub email name : Text) (verified : Bool)
          → Keeps P (login_with_oidc s now fresh sub email name verified)
      unfolding login_with_oidc
      Keeps-login_with_oidc sub email name verified =
          search (keeps_rules, lookup_rules, Keeps-register_oidc_user, Keeps-enter_oidc)

      Keeps-login_with_apple : (token : Text) → Keeps P (login_with_apple s now fresh token)
      unfolding login_with_apple
      Keeps-login_with_apple token = search (keeps_rules, lookup_rules, Keeps-login_with_oidc)

    Keeps-mail_reset : (id : ℕ) (u : User) → Keeps P (mail_reset s now id u)
    unfolding mail_reset
    Keeps-mail_reset id u = search (keeps_rules, lookup_rules, Keeps-post)

    Keeps-request_password_reset :
        (id : ℕ) (email : Text) → Keeps P (request_password_reset s now id email)
    unfolding request_password_reset
    Keeps-request_password_reset id email = search (keeps_rules, lookup_rules, Keeps-mail_reset)

    pub Keeps-finish_reset : (u : User) → Keeps P (finish_reset s now u)
    unfolding finish_reset
    Keeps-finish_reset u = search (keeps_rules, st.marks)

    Keeps-store_password : (hash : Text) (u : User) → Keeps P (store_password s now hash u)
    unfolding store_password
    Keeps-store_password hash u = search (keeps_rules, st.sets, st.withdraws, Keeps-finish_reset)

    Keeps-replace_password :
        (password : Text) (u : User) → Keeps P (replace_password s now password u)
    unfolding replace_password
    Keeps-replace_password password u = search (keeps_rules, lookup_rules, Keeps-store_password)

    Keeps-reset_for :
        (c : Claims) (password : Text) (u : User) → Keeps P (reset_for s now c password u)
    unfolding reset_for
    Keeps-reset_for c password u = search (keeps_rules, lookup_rules, Keeps-replace_password)

    Keeps-reset_claimed : (password : Text) (c : Claims) → Keeps P (reset_claimed s now password c)
    unfolding reset_claimed
    Keeps-reset_claimed password c = search (keeps_rules, lookup_rules, Keeps-reset_for)

    Keeps-reset_password : (token password : Text) → Keeps P (reset_password s now token password)
    unfolding reset_password
    Keeps-reset_password token password = search (keeps_rules, lookup_rules, Keeps-reset_claimed)

    Keeps-resend_verification : (link user : ℕ) → Keeps P (resend_verification s now link user)
    unfolding resend_verification resend
    Keeps-resend_verification link user =
        search (keeps_rules, lookup_rules, Keeps-send_verification)

    Keeps-confirm_for : (c : Claims) (u : User) → Keeps P (confirm_for s now c u)
    unfolding confirm_for confirm
    Keeps-confirm_for c u = search (keeps_rules, lookup_rules, st.marks, Keeps-send_welcome)

    Keeps-verify_claimed : (c : Claims) → Keeps P (verify_claimed s now c)
    unfolding verify_claimed
    Keeps-verify_claimed c = search (keeps_rules, lookup_rules, Keeps-confirm_for)

    Keeps-verify_email : (token : Text) → Keeps P (verify_email s now token)
    unfolding verify_email
    Keeps-verify_email token = search (keeps_rules, lookup_rules, Keeps-verify_claimed)

    serve-Keeps : (c : Call) (w : World Accounts) → P w.tables → P (serve s now c w).tables
    unfolding serve Keeps
    serve-Keeps (registering fresh input) = Keeps-register fresh input
    serve-Keeps (logging_in draw email password) = Keeps-login s.manager draw email password
    serve-Keeps (with_google fresh token) = Keeps-login_with_google fresh token
    serve-Keeps (with_apple fresh token) = Keeps-login_with_apple fresh token
    serve-Keeps (with_oidc fresh sub email name verified) =
        Keeps-login_with_oidc fresh sub email name verified
    serve-Keeps (refreshing draw text) = Keeps-refresh s.manager draw text
    serve-Keeps (logging_out draw text) = Keeps-logout s.manager draw text
    serve-Keeps (asking_reset id email) = Keeps-request_password_reset id email
    serve-Keeps (resetting token password) = Keeps-reset_password token password
    serve-Keeps (asking_link id user) = Keeps-resend_verification id user
    serve-Keeps (confirming token) = Keeps-verify_email token

module _ (P : Accounts → Type 0) (st : IsStable P) (s : Services) where
  -- What every statement keeps holds after any calls, at any times, whatever fails.
  pub serve_all-Keeps :
      (cs : List (ℕ × Call)) (w : World Accounts) → P w.tables → P (serve_all s cs w).tables
  unfolding serve_all
  serve_all-Keeps [] w h = h
  serve_all-Keeps ((now, c) ∷ cs) w h =
      serve_all-Keeps cs (serve s now c w) (serve-Keeps P st now s c w h)
