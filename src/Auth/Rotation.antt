-- ===== src/Auth/Rotation.antt =====
-- Rotation: a refresh token works once.
use beaconpulse.Text.{Text}
use beaconpulse.Auth.Stability.Calls.{Keeps-reissue, serve_all-Keeps}
use beaconpulse.Auth.Histories.{serve_all, Call}
use beaconpulse.Auth.Spent.{
  get_by_hash-find, Spends-IsStable, tables-get_by_hash, refresh-refused, revoke_where-is_spent,
  Spends,
}
use beaconpulse.World.Rules.{Result-cases}
use beaconpulse.World.Keeping.{Keeps}
use beaconpulse.Auth.Letters.{Services}
use beaconpulse.Auth.Sessions.{
  bad_refresh, reissue, Session, on_found, refresh, refresh_stored, rotate, look_up, on_error,
}
use mathlib.Core.Path.{subst}
use beaconpulse.Prelude.{◌∙◌, ap, ◌==◌, sym, arith, ◌≢◌, find, List, ℕ, ◌≡◌, refl, some, inl, inr}
use beaconpulse.World.{Result, throw, AppError, db, Code, M, World, ok, err, not_found}
use beaconpulse.Role.{RefreshToken}
use beaconpulse.Auth.{User, TokenManager, Draw}
use beaconpulse.Auth.Store.{get_by_hash, hash_is, get_user_by_id, revoke_token, Accounts}

-- A lookup whose answer leads to success has found its row.
on_error-ok :
    {B : Type 0} (c : Code) (e x : AppError) (w : World Accounts) {b : B}
    → (on_error c e (throw x) w).0 ≢ ok b
unfolding on_error
on_error-ok not_found e x w h = ground arith
on_error-ok _ e x w h = ground arith

pub look_up-ok :
    {A B : Type 0} (m : M Accounts A) (x : AppError) (k : A → M Accounts B) (w : World Accounts)
    {b : B}
    → (look_up m (throw x) k w).0 ≡ ok b
    → (a : A) × ((m w).0 ≡ ok a)
      × ((k a (m w).1).0 ≡ ok b)
      × (look_up m (throw x) k w ≡ k a (m w).1)
unfolding look_up on_found
look_up-ok {A = A} {B = B} m x k w {b = b} h = go (m w).0 (m w).1 h
  where
    go :
        (r : Result A) (w' : World Accounts)
        → (on_found r (throw x) k w').0 ≡ ok b
        → (a : A) × (r ≡ ok a) × ((k a w').0 ≡ ok b) × (on_found r (throw x) k w' ≡ k a w')
    go (ok a) w' h' = (a, refl, h', refl)
    go (err e) w' h' = absurd (on_error-ok e.code e x w' h')

module _ (m : TokenManager) (now : ℕ) (draw : Draw) where
  rotate-steps :
      (k : RefreshToken) (u : User) (w : World Accounts) {session : Session}
      → (rotate m now draw k u w).0 ≡ ok session
      → ((revoke_token now k.id w).0 ≡ ok tt)
        × (rotate m now draw k u w ≡ reissue m now draw u (revoke_token now k.id w).1)
  unfolding rotate
  rotate-steps k u w h = ground arith

  revoke_token-Spends :
      (h : Text) (k : RefreshToken) (w : World Accounts)
      → find (hash_is h) w.tables.tokens ≡ some k
      → (revoke_token now k.id w).0 ≡ ok tt
      → Spends h (revoke_token now k.id w).1.tables
  unfolding revoke_token db
  revoke_token-Spends h k w found e = ground (
    arith,
    revoke_where-is_spent h (λ r. r.id == k.id) now w.tables.tokens {k = k} found (ground arith),
  )

  -- Revoking the row of a hash, then issuing another token.
  rotate-Spends :
      (h : Text) (k : RefreshToken) (u : User) (w : World Accounts) {session : Session}
      → find (hash_is h) w.tables.tokens ≡ some k
      → (rotate m now draw k u w).0 ≡ ok session
      → Spends h (rotate m now draw k u w).1.tables
  unfolding Keeps
  rotate-Spends h k u w found e =
      let (revoked, same) = rotate-steps k u w e in
      subst (λ r. Spends h r.1.tables) (sym same)
        (Keeps-reissue (Spends h) (Spends-IsStable h) now m draw u (revoke_token now k.id w).1
          (revoke_token-Spends h k w found revoked))

  refresh_stored-steps :
      (k : RefreshToken) (w : World Accounts) {session : Session}
      → (refresh_stored m now draw k w).0 ≡ ok session
      → (u : User) × ((get_user_by_id k.user w).0 ≡ ok u)
        × (refresh_stored m now draw k w ≡ rotate m now draw k u (get_user_by_id k.user w).1)
  unfolding refresh_stored
  refresh_stored-steps k w h = elim (Result-cases (get_user_by_id k.user w).0) [
    | inl (u, e) ↦ (u, e, ground arith)
    | inr (x, e) ↦ ground arith
  ]

  refresh_stored-Spends :
      (h : Text) (k : RefreshToken) (w : World Accounts) {session : Session}
      → find (hash_is h) w.tables.tokens ≡ some k
      → (refresh_stored m now draw k w).0 ≡ ok session
      → Spends h (refresh_stored m now draw k w).1.tables
  unfolding get_user_by_id db
  refresh_stored-Spends h k w found e =
      let (u, read, same) = refresh_stored-steps k w e in
      subst (λ r. Spends h r.1.tables) (sym same)
        (rotate-Spends h k u (get_user_by_id k.user w).1 (ground arith)
          (ap (λ r. r.0) (sym same) ∙ e))

  refresh-Spends :
      (text : Text) (w : World Accounts) {session : Session}
      → (refresh m now draw text w).0 ≡ ok session
      → Spends (m.crypto.hmac text) (refresh m now draw text w).1.tables
  unfolding refresh
  refresh-Spends text w h =
      let key = m.crypto.hmac text in
      let (k, read, e, same) =
        look_up-ok (get_by_hash key) bad_refresh (refresh_stored m now draw) w h in
      subst (λ r. Spends key r.1.tables) (sym same)
        (refresh_stored-Spends key k (get_by_hash key w).1
          (ap (λ t. find (hash_is key) t.tokens) (tables-get_by_hash key w)
            ∙ get_by_hash-find key w read)
          e)

module _ (s : Services) (now later : ℕ) (draw next : Draw) (text : Text) (w : World Accounts)
    (cs : List (ℕ × Call)) where
  -- A refresh token works once: after it was exchanged, and after whatever other calls follow at any
  -- times and with any statements failing, presenting it again is refused.
  pub refresh-refresh :
      {session : Session}
      → (refresh s.manager now draw text w).0 ≡ ok session
      → (e : AppError) × ((refresh s.manager later next text
            (serve_all s cs (refresh s.manager now draw text w).1)).0
          ≡ err e)
  refresh-refresh h =
      let key = s.manager.crypto.hmac text in
      refresh-refused s.manager later next text
        (serve_all s cs (refresh s.manager now draw text w).1)
        (serve_all-Keeps (Spends key) (Spends-IsStable key) s cs
          (refresh s.manager now draw text w).1 (refresh-Spends s.manager now draw text w h))
