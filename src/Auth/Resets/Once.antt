-- ===== src/Auth/Resets/Once.antt =====
-- What a reset leaves: the new hash, no usable refresh token of the account, and a link that is spent.
use beaconpulse.Text.{text_eq, Text}
use beaconpulse.Text.Laws.{text_eq_iff}
use beaconpulse.Auth.Stability.Calls.{serve_all-Keeps, Keeps-finish_reset}
use beaconpulse.Auth.Histories.{serve_all, Call}
use beaconpulse.Auth.Spent.{refresh-refused, Spends-IsStable, revoke_where-is_spent, Spends}
use beaconpulse.World.Keeping.{keeps_rules, Keeps-db, Keeps}
use beaconpulse.Auth.Recovery.{reset_password, finish_reset, matches}
use beaconpulse.Auth.Sessions.{refresh}
use mathlib.Core.Path.{subst}
use beaconpulse.Prelude.{
  ◌==◌, ◌≢◌, if◌then◌else◌, Bool-cases, any, List, sym, find, ap, arith, Option-cases, Option, ℕ,
  ◌∙◌, ◌≡◌, refl, none, some, [], ◌∷◌, inl, inr, true,
}
use beaconpulse.World.{AppError, db, World, ok, err}
use beaconpulse.Role.{RefreshToken}
use beaconpulse.Auth.{password_fingerprint, reset_type, parse_typed, Claims, User, Draw}
use beaconpulse.Auth.Store.{
  first_time, hash_is, UserRow, edit_users, mark_email_verified, password_tx, is_user,
  revoke_all_for_user, set_password, get_user_by_id, Accounts,
}
use beaconpulse.Auth.Letters.{Services}
use beaconpulse.Auth.Resets.{store-steps, IsReset, reset_password-IsReset}

-- The hash of the user that an id finds.
unfoldable pub password_of : ℕ → List UserRow → Option Text
password_of id [] = none
password_of id (r ∷ rs) =
    let rest = password_of id rs in if is_user id r then some r.user.password_hash else rest

password_of-set :
    (id : ℕ) (hash : Text) (rs : List UserRow)
    → any (is_user id) rs ≡ true
    → password_of id (edit_users (is_user id) (λ u. record u { password_hash = hash }) rs)
      ≡ some hash
unfolding password_of edit_users is_user
password_of-set id hash [] h = ground arith
password_of-set id hash (r ∷ rs) h = ground (arith, password_of-set id hash rs)

password_of-mark :
    (id now i : ℕ) (rs : List UserRow)
    → password_of i (
        edit_users
          (is_user id)
          (λ u. record u { email_verified_at = first_time now u.email_verified_at })
          rs)
      ≡ password_of i rs
unfolding password_of edit_users is_user
password_of-mark id now i [] = refl
password_of-mark id now i (r ∷ rs) = ground (arith, password_of-mark id now i rs)

password_of-found :
    (id : ℕ) (rs : List UserRow) {r : UserRow}
    → find (is_user id) rs ≡ some r
    → password_of id rs ≡ some r.user.password_hash
unfolding password_of
password_of-found id [] e = ground arith
password_of-found id (r ∷ rs) {r = found} e = elim (Bool-cases (is_user id r)) [
  | inl hit ↦ ground arith
  | inr miss ↦ ground (arith, password_of-found id rs {r = found} (ground arith))
]

password_of-get :
    (id : ℕ) (w : World Accounts) {u : User}
    → (get_user_by_id id w).0 ≡ ok u
    → password_of id w.tables.users ≡ some u.password_hash
unfolding get_user_by_id db
password_of-get id w {u = u} h = elim (Option-cases (find (is_user id) w.tables.users)) [
  | inl e ↦ ground arith
  | inr (r, e) ↦ ground (arith, password_of-found id w.tables.users e)
]

-- What a reset leaves for the account: the new hash.
abbrev Rekeys : ℕ → Text → Accounts → Type 0
Rekeys id hash t = password_of id t.users ≡ some hash

module _ (s : Services) (now : ℕ) where
  mark-Rekeys :
      (id : ℕ) (hash : Text) (user : ℕ) → Keeps (Rekeys id hash) (mark_email_verified now user)
  unfolding mark_email_verified
  mark-Rekeys id hash user =
      Keeps-db (Rekeys id hash) _ (λ t h. password_of-mark user now id t.users ∙ h)

  finish_reset-Rekeys :
      (id : ℕ) (hash : Text) (u : User) → Keeps (Rekeys id hash) (finish_reset s now u)
  unfolding finish_reset
  finish_reset-Rekeys id hash u = search (keeps_rules, mark-Rekeys)

  set_password-Rekeys :
      (id : ℕ) (hash : Text) (w : World Accounts)
      → (set_password id hash w).0 ≡ ok tt
      → Rekeys id hash (set_password id hash w).1.tables
  unfolding set_password db password_tx
  set_password-Rekeys id hash w h = ground (arith, password_of-set id hash w.tables.users)

  revoke_all-Rekeys :
      (id user : ℕ) (hash : Text) → Keeps (Rekeys id hash) (revoke_all_for_user now user)
  unfolding revoke_all_for_user
  revoke_all-Rekeys id user hash = Keeps-db (Rekeys id hash) _ (λ t h. h)

  pub reset_password-Rekeys :
      (token password : Text) (w : World Accounts) (r : IsReset s now token password w)
      → (reset_password s now token password w).0 ≡ ok tt
      → Rekeys r.u.id r.hash (reset_password s now token password w).1.tables
  unfolding Keeps
  reset_password-Rekeys token password w r h =
      let (set, withdrawn, e) =
        store-steps s now r.hash r.u r.at (ap (λ x. x.0) (sym r.same) ∙ h) in
      let w1 = (set_password r.u.id r.hash r.at).1 in
      subst (λ x. Rekeys r.u.id r.hash x.1.tables) (sym (r.same ∙ e))
        (finish_reset-Rekeys r.u.id r.hash r.u (revoke_all_for_user now r.u.id w1).1
          (revoke_all-Rekeys r.u.id r.u.id r.hash w1 (set_password-Rekeys r.u.id r.hash r.at set)))

  finish_reset-Spends : (h : Text) (u : User) → Keeps (Spends h) (finish_reset s now u)
  finish_reset-Spends h u = Keeps-finish_reset (Spends h) (Spends-IsStable h) now s u

  revoke_all-Spends :
      (h : Text) (k : RefreshToken) (user : ℕ) (w : World Accounts)
      → find (hash_is h) w.tables.tokens ≡ some k
      → k.user ≡ user
      → (revoke_all_for_user now user w).0 ≡ ok tt
      → Spends h (revoke_all_for_user now user w).1.tables
  unfolding revoke_all_for_user db
  revoke_all-Spends h k user w found owned e = ground (
    arith,
    revoke_where-is_spent h (λ r. r.user == user) now w.tables.tokens {k = k} found (ground arith),
  )

  tokens-set_password :
      (id : ℕ) (hash : Text) (w : World Accounts)
      → (set_password id hash w).1.tables.tokens ≡ w.tables.tokens
  unfolding set_password db password_tx
  tokens-set_password id hash w = ground arith

  pub reset_password-Spends :
      (token password h : Text) (k : RefreshToken) (w : World Accounts)
      (r : IsReset s now token password w)
      → find (hash_is h) w.tables.tokens ≡ some k
      → k.user ≡ r.u.id
      → (reset_password s now token password w).0 ≡ ok tt
      → Spends h (reset_password s now token password w).1.tables
  unfolding Keeps
  reset_password-Spends token password h k w r found owned e =
      let (set, withdrawn, same) =
        store-steps s now r.hash r.u r.at (ap (λ x. x.0) (sym r.same) ∙ e) in
      let w1 = (set_password r.u.id r.hash r.at).1 in
      let found1 =
        ap (find (hash_is h))
          (tokens-set_password r.u.id r.hash r.at ∙ ap (λ t. t.tokens) r.unmoved)
        ∙ found in
      subst (λ x. Spends h x.1.tables) (sym (r.same ∙ same))
        (finish_reset-Spends h r.u (revoke_all_for_user now r.u.id w1).1
          (revoke_all-Spends h k r.u.id w1 found1 owned withdrawn))

module _ (s : Services) (now later : ℕ) (token password : Text) (w : World Accounts) where
  -- A reset signs the account out everywhere: a refresh token of the account that the link is for is
  -- refused from then on, after whatever calls, at any times and with any statements failing.
  pub reset_password-refresh :
      (next : Draw) (text : Text) (cs : List (ℕ × Call)) {k : RefreshToken} {c : Claims}
      → find (hash_is (s.manager.crypto.hmac text)) w.tables.tokens ≡ some k
      → parse_typed s.manager now token reset_type ≡ some c
      → c.subject ≡ some k.user
      → (reset_password s now token password w).0 ≡ ok tt
      → (e : AppError) × ((refresh s.manager later next text
            (serve_all s cs (reset_password s now token password w).1)).0
          ≡ err e)
  reset_password-refresh next text cs {k = k} {c = c} found parsed owned h =
      let key = s.manager.crypto.hmac text in
      let r = reset_password-IsReset s now token password w h in
      let w1 = (reset_password s now token password w).1 in
      let owner : k.user ≡ r.u.id = ground (arith, r.parsed, r.addressed) in
      refresh-refused s.manager later next text (serve_all s cs w1) (
        serve_all-Keeps (Spends key) (Spends-IsStable key) s cs w1
          (reset_password-Spends s now token password key k w r found owner h))

  -- A link resets a password once: where the new hash has another fingerprint than the link, and the
  -- link reads the same at both times, it is refused in the tables that its use left.
  pub reset_password-reset_password :
      (again : Text)
      → ((c d : Claims)
          → parse_typed s.manager now token reset_type ≡ some c
          → parse_typed s.manager later token reset_type ≡ some d
          → c ≡ d)
      → ((c : Claims) (hash : Text)
          → parse_typed s.manager now token reset_type ≡ some c
          → s.manager.crypto.hash_password password ≡ some hash
          → c.password_fp ≢ password_fingerprint s.manager now hash)
      → (reset_password s now token password w).0 ≡ ok tt
      → (reset_password s later token again (reset_password s now token password w).1).0 ≢ ok tt
  unfolding matches password_fingerprint
  reset_password-reset_password again stable fresh h h' =
      let r = reset_password-IsReset s now token password w h in
      let w1 = (reset_password s now token password w).1 in
      let r' = reset_password-IsReset s later token again w1 h' in
      let rekeyed = reset_password-Rekeys s now token password w r h in
      let found = password_of-get r'.u.id w1 r'.found in
      let same = stable r.c r'.c r.parsed r'.parsed in
      let id : r'.u.id ≡ r.u.id = ground (arith, same, r.addressed, r'.addressed) in
      let hash : r'.u.password_hash ≡ r.hash =
        ground (
          arith,
          found,
          subst (λ i. password_of i w1.tables.users ≡ some r.hash) (sym id) rekeyed,
        ) in
      let matched : text_eq r'.c.password_fp (password_fingerprint s.manager now r'.u.password_hash)
          ≡ true =
        ground (arith, r'.matched) in
      fresh r.c r.hash r.parsed r.hashed (
        ap (λ c. c.password_fp) same
        ∙ (text_eq_iff _ _).0 matched
        ∙ ap (password_fingerprint s.manager now) hash)
