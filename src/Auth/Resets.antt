-- ===== src/Auth/Resets.antt =====
-- Resets of passwords: a reset signs the account out everywhere, and a link works once.
pub mod Once
use beaconpulse.Text.{Text}
use beaconpulse.World.Keeping.{keeps_rules, Keeps-db, Keeps}
use beaconpulse.Auth.Signup.{short_password}
use beaconpulse.Auth.Rotation.{look_up-ok}
use beaconpulse.World.Rules.{bind-ok}
use beaconpulse.Auth.Recovery.{
  reset_password, finish_reset, invalid_reset, matches, replace_password, reset_claimed, reset_for,
  store_password,
}
use beaconpulse.Auth.Sessions.{look_up, of_option}
use mathlib.Core.Path.{subst}
use beaconpulse.Prelude.{
  if◌then◌else◌, Bool-cases, any, List, sym, length, find-holds, leb, find, ap, arith, Option-cases,
  Option, ℕ, ◌∙◌, ◌≡◌, refl, none, some, [], ◌∷◌, inl, inr, ◌⊎◌, true, false,
}
use beaconpulse.World.{guard, AppError, db, M, World, ok, err, ◌>>=◌, ◌>>◌, not_found}
use beaconpulse.Role.{RefreshToken}
use beaconpulse.Auth.{reset_type, parse_typed, Claims, User, TokenManager, Draw}
use beaconpulse.Auth.Store.{
  UserRow, edit_users, mark_email_verified, password_tx, is_user, revoke_all_for_user, set_password,
  get_user_by_id, Accounts,
}
use beaconpulse.Auth.Letters.{Services}

of_option-ok :
    {A : Type 0} (o : Option A) (e : AppError) (w : World Accounts) {a : A}
    → (of_option o e w).0 ≡ ok a
    → (o ≡ some a) × ((of_option o e w).1 ≡ w)
unfolding of_option
of_option-ok none e w h = ground arith
of_option-ok (some a) e w h = (ground arith, refl)

module _ (s : Services) (now : ℕ) where
  store-steps :
      (hash : Text) (u : User) (w : World Accounts)
      → (store_password s now hash u w).0 ≡ ok tt
      → ((set_password u.id hash w).0 ≡ ok tt)
        × ((revoke_all_for_user now u.id (set_password u.id hash w).1).0 ≡ ok tt)
        × (store_password s now hash u w
            ≡ finish_reset s now u (revoke_all_for_user now u.id (set_password u.id hash w).1).1)
  unfolding store_password
  store-steps hash u w h = ground arith

  replace-steps :
      (password : Text) (u : User) (w : World Accounts)
      → (replace_password s now password u w).0 ≡ ok tt
      → (hash : Text) × (s.manager.crypto.hash_password password ≡ some hash)
        × (replace_password s now password u w ≡ store_password s now hash u w)
  unfolding replace_password of_option
  replace-steps password u w h = elim (Option-cases (s.manager.crypto.hash_password password)) [
    | inl e ↦ ground arith
    | inr (hash, e) ↦ (hash, e, ground arith)
  ]

  find-id :
      (id : ℕ) (w : World Accounts) {u : User}
      → (get_user_by_id id w).0 ≡ ok u
      → (u.id ≡ id) × ((get_user_by_id id w).1.tables ≡ w.tables)
  unfolding get_user_by_id db is_user
  find-id id w {u = u} h = elim (Option-cases (find (is_user id) w.tables.users)) [
    | inl e ↦ ground arith
    | inr (r, e) ↦ ground (arith, find-holds (is_user id) w.tables.users e)
  ]

  reset_claimed-steps :
      (password : Text) (c : Claims) (w : World Accounts)
      → (reset_claimed s now password c w).0 ≡ ok tt
      → (id : ℕ) × (u : User) × (c.subject ≡ some id)
        × ((get_user_by_id id w).0 ≡ ok u)
        × (reset_claimed s now password c w ≡ reset_for s now c password u (get_user_by_id id w).1)
  unfolding reset_claimed
  reset_claimed-steps password c w h =
      let (id, read, rest, same) = bind-ok (of_option c.subject invalid_reset) _ w h in
      let (known, unmoved) = of_option-ok c.subject invalid_reset w read in
      let (u, got, done, same') =
        look_up-ok (get_user_by_id id) invalid_reset (reset_for s now c password) _ rest in
      (
        id,
        u,
        known,
        subst (λ v. (get_user_by_id id v).0 ≡ ok u) unmoved got,
        same ∙ same' ∙ ap (λ v. reset_for s now c password u (get_user_by_id id v).1) unmoved,
      )

  reset_for-steps :
      (c : Claims) (password : Text) (u : User) (w : World Accounts)
      → (reset_for s now c password u w).0 ≡ ok tt
      → (matches s now c u ≡ true)
        × (reset_for s now c password u w ≡ replace_password s now password u w)
  unfolding reset_for
  reset_for-steps c password u w h = ground arith

  -- What a reset that succeeds has found and done.
  pub record IsReset (token password : Text) (w : World Accounts) : Type 0 where
    pub c : Claims
    pub u : User
    pub hash : Text
    pub parsed : parse_typed s.manager now token reset_type ≡ some c
    pub addressed : c.subject ≡ some u.id
    pub matched : matches s now c u ≡ true
    pub found : (get_user_by_id u.id w).0 ≡ ok u
    pub hashed : s.manager.crypto.hash_password password ≡ some hash
    pub at : World Accounts
    pub unmoved : at.tables ≡ w.tables
    pub same : reset_password s now token password w ≡ store_password s now hash u at

  reset_parsed : Text → Text → M Accounts (Unit {0})
  reset_parsed token password = do
    c ← of_option (parse_typed s.manager now token reset_type) invalid_reset
    reset_claimed s now password c

  reset_password-steps :
      (token password : Text) (w : World Accounts)
      → (reset_password s now token password w).0 ≡ ok tt
      → (c : Claims) × (parse_typed s.manager now token reset_type ≡ some c)
        × (reset_password s now token password w ≡ reset_claimed s now password c w)
  unfolding reset_password of_option
  reset_password-steps token password w h =
      elim (Option-cases (parse_typed s.manager now token reset_type)) [
        | inl e ↦ ground arith
        | inr (c, e) ↦ (c, e, ground arith)
      ]

  pub reset_password-IsReset :
      (token password : Text) (w : World Accounts)
      → (reset_password s now token password w).0 ≡ ok tt
      → IsReset token password w
  reset_password-IsReset token password w h =
      let (c, parsed, e1) = reset_password-steps token password w h in
      let (id, u, known, got, e2) = reset_claimed-steps password c w (ap (λ r. r.0) (sym e1) ∙ h) in
      let at = (get_user_by_id id w).1 in
      let (matched, e3) = reset_for-steps c password u at (ap (λ r. r.0) (sym (e1 ∙ e2)) ∙ h) in
      let (hash, hashed, e4) =
        replace-steps password u at (ap (λ r. r.0) (sym (e1 ∙ e2 ∙ e3)) ∙ h) in
      let (same_id, unmoved) = find-id id w got in
      record {
        c = c;
        u = u;
        hash = hash;
        parsed = parsed;
        addressed = known ∙ ap some (sym same_id);
        matched = matched;
        found = subst (λ i. (get_user_by_id i w).0 ≡ ok u) (sym same_id) got;
        hashed = hashed;
        at = at;
        unmoved = unmoved;
        same = e1 ∙ e2 ∙ e3 ∙ e4;
      }
