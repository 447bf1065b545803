-- ===== src/Auth/Spent.antt =====
-- Refresh tokens that were used or withdrawn: what keeps them so, and what they are answered with.
use beaconpulse.Text.{text_eq, Text}
use beaconpulse.World.Rules.{Result-cases}
use beaconpulse.Auth.Histories.{IsStable}
use beaconpulse.Auth.Sessions.{
  Session, bad_refresh, on_error, on_found, refresh_stored, look_up, refresh,
}
use beaconpulse.Text.Laws.{text_eq_iff}
use beaconpulse.World.Keeping.{Keeps-db, Keeps}
use mathlib.Core.Path.{subst}
use beaconpulse.Prelude.{
  sym, Bool-cases, ◌==◌, arith, any, find, is_some, ℕ, Bool, List, Option, ◌≡◌, refl, none, some,
  [], ◌∷◌, inl, inr, true, false,
}
use beaconpulse.World.{not_found, throw, Code, AppError, db, Result, World, ok, err}
use beaconpulse.Role.{is_usable, RefreshToken}
use beaconpulse.Auth.{Organization, User, TokenManager, Draw}
use beaconpulse.Auth.Store.{
  mark_email_verified, set_password, get_by_hash, link_google_sub, touch_last_login,
  create_org_and_owner, create_tx, link_tx, password_tx, create_token, hash_is, revoke_all_for_user,
  revoke_token, insert_token, revoke_where, Accounts,
}
use beaconpulse.Auth.Letters.{hand_over}

-- The row of a hash is there and revoked.
abbrev pub row_is_spent : Option RefreshToken → Bool
row_is_spent none = false
row_is_spent (some k) = is_some k.revoked_at

unfoldable pub is_spent : Text → List RefreshToken → Bool
is_spent h ks = row_is_spent (find (hash_is h) ks)

abbrev pub Spends : Text → Accounts → Type 0
Spends h t = is_spent h t.tokens ≡ true

is_spent-any :
    (h : Text) (ks : List RefreshToken) → is_spent h ks ≡ true → any (hash_is h) ks ≡ true
unfolding is_spent
is_spent-any h [] e = ground arith
is_spent-any h (k ∷ ks) e = elim (Bool-cases (hash_is h k)) [
  | inl hit ↦ ground arith
  | inr miss ↦ ground (arith, is_spent-any h ks)
]

is_spent-revoke_where :
    (h : Text) (p : RefreshToken → Bool) (now : ℕ) (ks : List RefreshToken)
    → is_spent h ks ≡ true
    → is_spent h (revoke_where p now ks) ≡ true
unfolding is_spent revoke_where hash_is
is_spent-revoke_where h p now [] e = e
is_spent-revoke_where h p now (k ∷ ks) e = ground (arith, is_spent-revoke_where h p now ks)

-- The row of a hash is found in front of the others only if it has the hash.
insert_token-Spends :
    (h : Text) (k : RefreshToken) (t : Accounts) → Spends h t → Spends h (insert_token k t).1
unfolding insert_token is_spent hash_is
insert_token-Spends h k t e = elim (Bool-cases (text_eq k.token_hash h)) [
  | inl same ↦ ground (arith, (text_eq_iff k.token_hash h).0 same, is_spent-any h t.tokens e)
  | inr other ↦ ground arith
]

users_alone :
    (h : Text) (q : Accounts → Result (Unit {0}) × Accounts)
    → ((t : Accounts) → (q t).1.tokens ≡ t.tokens)
    → (t : Accounts) → Spends h t
    → Spends h (q t).1
users_alone h q e t p = subst (λ ks. is_spent h ks ≡ true) (sym (e t)) p

create_tx-tokens :
    (o : Organization) (u : User) (t : Accounts) → (create_tx o u t).1.tokens ≡ t.tokens
unfolding create_tx
create_tx-tokens o u t = ground arith

link_tx-tokens : (id : ℕ) (sub : Text) (t : Accounts) → (link_tx id sub t).1.tokens ≡ t.tokens
unfolding link_tx
link_tx-tokens id sub t = ground arith

password_tx-tokens :
    (id : ℕ) (hash : Text) (t : Accounts) → (password_tx id hash t).1.tokens ≡ t.tokens
unfolding password_tx
password_tx-tokens id hash t = ground arith

-- No statement of the service makes a spent token usable.
pub Spends-IsStable : (h : Text) → IsStable (Spends h)
unfolding Keeps create_org_and_owner touch_last_login link_google_sub set_password
    mark_email_verified create_token revoke_token revoke_all_for_user hand_over
Spends-IsStable h = record {
  opens = λ o u.
      Keeps-db (Spends h) (create_tx o u) (users_alone h (create_tx o u) (create_tx-tokens o u));
  touches = λ now id. Keeps-db (Spends h) _ (λ t e. e);
  links = λ id sub.
      Keeps-db (Spends h) (link_tx id sub) (users_alone h (link_tx id sub) (link_tx-tokens id sub));
  sets = λ id hash.
      Keeps-db (Spends h) (password_tx id hash)
        (users_alone h (password_tx id hash) (password_tx-tokens id hash));
  marks = λ now id. Keeps-db (Spends h) _ (λ t e. e);
  issues = λ k. Keeps-db (Spends h) (insert_token k) (insert_token-Spends h k);
  revokes = λ now id.
      Keeps-db (Spends h) _ (λ t e. is_spent-revoke_where h (λ k. k.id == id) now t.tokens e);
  withdraws = λ now user.
      Keeps-db (Spends h) _ (λ t e. is_spent-revoke_where h (λ k. k.user == user) now t.tokens e);
  hands = λ letter w e. e;
}

-- Withdrawing the row of a hash.
pub revoke_where-is_spent :
    (h : Text) (p : RefreshToken → Bool) (now : ℕ) (ks : List RefreshToken) {k : RefreshToken}
    → find (hash_is h) ks ≡ some k
    → p k ≡ true
    → is_spent h (revoke_where p now ks) ≡ true
unfolding is_spent revoke_where hash_is
revoke_where-is_spent h p now [] e hit = ground arith
revoke_where-is_spent h p now (k ∷ ks) {k = found} e hit = elim (Bool-cases (hash_is h k)) [
  | inl same ↦ ground arith
  | inr other ↦ ground (arith, revoke_where-is_spent h p now ks {k = found} (ground arith) hit)
]

-- A lookup by a hash reads only.
pub get_by_hash-find :
    (h : Text) (w : World Accounts) {k : RefreshToken}
    → (get_by_hash h w).0 ≡ ok k
    → find (hash_is h) w.tables.tokens ≡ some k
unfolding get_by_hash db
get_by_hash-find h w e = ground arith

pub tables-get_by_hash : (h : Text) (w : World Accounts) → (get_by_hash h w).1.tables ≡ w.tables
unfolding get_by_hash db
tables-get_by_hash h w = ground arith

-- A lookup that fails is answered with an error.
on_error-refused :
    (c : Code) (e x : AppError) (w : World Accounts)
    → (y : AppError) × ((on_error {B = Session} c e (throw x) w).0 ≡ err y)
unfolding on_error
on_error-refused not_found e x w = (x, refl)
on_error-refused _ e x w = (e, refl)

module _ (m : TokenManager) (now : ℕ) (draw : Draw) where
  refresh_stored-refused :
      (k : RefreshToken) (w : World Accounts)
      → is_some k.revoked_at ≡ true
      → (refresh_stored m now draw k w).0 ≡ err bad_refresh
  unfolding refresh_stored is_usable
  refresh_stored-refused k w h = ground arith

  -- A token that is spent is refused, whether or not the database answers.
  pub refresh-refused :
      (text : Text) (w : World Accounts)
      → Spends (m.crypto.hmac text) w.tables
      → (e : AppError) × ((refresh m now draw text w).0 ≡ err e)
  unfolding refresh look_up on_found is_spent
  refresh-refused text w spent = elim (Result-cases (get_by_hash (m.crypto.hmac text) w).0) [
    | inl (k, e) ↦
        let found = get_by_hash-find (m.crypto.hmac text) w e in
        (
          bad_refresh,
          (ground (
            arith,
            refresh_stored-refused k (get_by_hash (m.crypto.hmac text) w).1 (ground arith),
          )),
        )
    | inr (x, e) ↦
        let (y, r) = on_error-refused x.code x bad_refresh (get_by_hash (m.crypto.hmac text) w).1 in
        (y, ground arith)
  ]
