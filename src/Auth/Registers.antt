-- ===== src/Auth/Registers.antt =====
-- The uniqueness of addresses and slugs, whatever calls are made.
use beaconpulse.Text.{Text}
use beaconpulse.Auth.Stability.Calls.{serve_all-Keeps}
use beaconpulse.Auth.Histories.{IsStable, serve_all, Call}
use beaconpulse.Auth.Letters.{hand_over, Services}
use beaconpulse.World.Keeping.{Keeps-db, Keeps}
use beaconpulse.Prelude.{
  ◌==◌, arith, ℕ, Bool, List, ◌≡◌, refl, some, [], ◌∷◌, true, ◌&&◌, ◌||◌, not,
}
use beaconpulse.World.{World}
use beaconpulse.Role.{RefreshToken}
use beaconpulse.Auth.{Organization, User}
use beaconpulse.Auth.Store.{
  edited, first_time, revoke_all_for_user, revoke_token, create_token, mark_email_verified,
  set_password, is_user, link_google_sub, slug_taken, touch_last_login, OrgRow,
  create_org_and_owner, edit_users, email_taken, UserRow, create_tx, insert_token, link_tx,
  password_tx, Accounts,
}

-- No two live users share an address, in any mix of cases.
unfoldable pub distinct_emails : List UserRow → Bool
distinct_emails [] = true
distinct_emails (r ∷ rs) = (r.deleted || not (email_taken r.user.email rs)) && distinct_emails rs

-- No two live organizations share a slug.
unfoldable pub distinct_slugs : List OrgRow → Bool
distinct_slugs [] = true
distinct_slugs (r ∷ rs) = (r.deleted || not (slug_taken r.org.slug rs)) && distinct_slugs rs

unfoldable pub is_consistent : Accounts → Bool
is_consistent t = distinct_emails t.users && distinct_slugs t.orgs

abbrev pub IsConsistent : Accounts → Type 0
IsConsistent t = is_consistent t ≡ true

module _ (p : UserRow → Bool) (f : User → User) (same : (u : User) → (f u).email ≡ u.email) where
  email_taken-edit_users :
      (email : Text) (rs : List UserRow)
      → email_taken email (edit_users p f rs) ≡ email_taken email rs
  unfolding email_taken edit_users
  email_taken-edit_users email [] = refl
  email_taken-edit_users email (r ∷ rs) =
      ground (arith, email_taken-edit_users email rs, same r.user)

  distinct-edit_users :
      (rs : List UserRow) → distinct_emails (edit_users p f rs) ≡ distinct_emails rs
  unfolding distinct_emails edit_users
  distinct-edit_users [] = refl
  distinct-edit_users (r ∷ rs) =
      ground (arith, distinct-edit_users rs, same r.user, email_taken-edit_users r.user.email rs)

  edited-IsConsistent : (t : Accounts) → IsConsistent t → IsConsistent (edited p f t)
  unfolding is_consistent
  edited-IsConsistent t h = ground (arith, distinct-edit_users t.users)

create_tx-IsConsistent :
    (o : Organization) (u : User) (t : Accounts) → IsConsistent t → IsConsistent (create_tx o u t).1
unfolding is_consistent create_tx distinct_emails distinct_slugs
create_tx-IsConsistent o u t h = ground arith

link_tx-IsConsistent :
    (id : ℕ) (sub : Text) (t : Accounts) → IsConsistent t → IsConsistent (link_tx id sub t).1
unfolding link_tx
link_tx-IsConsistent id sub t h =
    ground
      (arith, edited-IsConsistent (is_user id) (λ u. record u { google_sub = sub }) (λ u. refl) t h)

password_tx-IsConsistent :
    (id : ℕ) (hash : Text) (t : Accounts) → IsConsistent t → IsConsistent (password_tx id hash t).1
unfolding password_tx
password_tx-IsConsistent id hash t h = ground (
  arith,
  edited-IsConsistent (is_user id) (λ u. record u { password_hash = hash }) (λ u. refl) t h,
)

insert_token-IsConsistent :
    (k : RefreshToken) (t : Accounts) → IsConsistent t → IsConsistent (insert_token k t).1
unfolding is_consistent insert_token
insert_token-IsConsistent k t h = ground arith

IsConsistent-IsStable : IsStable IsConsistent
unfolding Keeps create_org_and_owner touch_last_login link_google_sub set_password
    mark_email_verified create_token revoke_token revoke_all_for_user hand_over is_consistent
IsConsistent-IsStable = record {
  opens = λ o u. Keeps-db IsConsistent (create_tx o u) (create_tx-IsConsistent o u);
  touches = λ now id. Keeps-db IsConsistent _ (λ t h.
      edited-IsConsistent (λ r. r.user.id == id) (λ u. record u { last_login_at = some now })
        (λ u. refl) t h);
  links = λ id sub. Keeps-db IsConsistent (link_tx id sub) (link_tx-IsConsistent id sub);
  sets = λ id hash. Keeps-db IsConsistent (password_tx id hash) (password_tx-IsConsistent id hash);
  marks = λ now id. Keeps-db IsConsistent _ (λ t h.
      edited-IsConsistent (is_user id)
        (λ u. record u { email_verified_at = first_time now u.email_verified_at }) (λ u. refl) t h);
  issues = λ k. Keeps-db IsConsistent (insert_token k) (insert_token-IsConsistent k);
  revokes = λ now id. Keeps-db IsConsistent _ (λ t h. h);
  withdraws = λ now user. Keeps-db IsConsistent _ (λ t h. h);
  hands = λ letter w h. h;
}

-- From tables in which they are, whatever calls follow and fail, the addresses of the live users stay
-- distinct whatever their case, and so do the slugs of the live organizations.
pub serve_all-IsConsistent :
    (s : Services) (cs : List (ℕ × Call)) (w : World Accounts)
    → IsConsistent w.tables
    → IsConsistent (serve_all s cs w).tables
serve_all-IsConsistent s cs w h = serve_all-Keeps IsConsistent IsConsistent-IsStable s cs w h
