-- ===== src/Account/Erasure.antt =====
-- What a deletion of backend/internal/domain/account leaves.
use beaconpulse.Auth.{User}
use beaconpulse.World.Rules.{db_audited_rule, db_rule}
use beaconpulse.Text.{trim_space, equal_fold, Text}
use beaconpulse.Prelude.{
  find, ℕ, ◌≡◌, refl, not, ◌||◌, ◌&&◌, Bool, true, false, Option, none, some, List, [], ◌∷◌, ◌==◌,
  if◌then◌else◌, arith, any, filter,
}
use beaconpulse.World.{
  Entry, db, validation_error, guard, AppError, not_found, pure, best_effort, new_error, and_then,
  World, Result, ok, err, M, ◌>>◌, ◌>>=◌,
}
use beaconpulse.Auth.Store.{UserRow, is_trace, is_user, user_result, erase_org_tx, Accounts}
use beaconpulse.Account.{
  forbidden, is_owner, delete_confirmed, close_with, get_user, close_billing, delete, request_sync,
  delete_organization, erase, Tables,
}

unfoldable pub holds_org : ℕ → Accounts → Bool
holds_org org t = any (λ r. r.org.id == org) t.orgs || any (λ r. r.user.org == org) t.users

abbrev is_closed : Option (ℕ → Bool) → ℕ → List ℕ → Bool
is_closed none org closed = true
is_closed (some _) org closed = any (λ o. o == org) closed

abbrev acted : Option ℕ → ℕ → Bool
acted none id = false
acted (some u) id = u == id

-- An entry by a user of the organization.
unfoldable pub is_by_member : ℕ → List UserRow → Entry → Bool
is_by_member org us e = any (λ r. r.user.org == org && acted e.user r.user.id) us

-- A success erased the organization, its users and their trail, with billing closed; a failure erased
-- nothing.
abbrev pub IsAllOrNothing :
    Option (ℕ → Bool) → ℕ → World Tables → Result (Unit {0}) × World Tables → Type 0
IsAllOrNothing billing org old (ok _, w) =
    (holds_org org w.tables.accounts ≡ false)
    × (any (λ e. e.org == org) w.audit ≡ false)
    × (any (is_by_member org old.tables.accounts.users) w.audit ≡ false)
    × (is_closed billing org w.tables.closed ≡ true)
IsAllOrNothing billing org old (err _, w) =
    (w.tables.accounts ≡ old.tables.accounts) × (w.audit ≡ old.audit)

any-filter : {A : Type 0} (q : A → Bool) (xs : List A) → any q (filter (λ x. not (q x)) xs) ≡ false
any-filter q [] = refl
any-filter q (x ∷ xs) = ground (arith, any-filter q xs)

any-weaken :
    {A : Type 0} (p q : A → Bool) (xs : List A)
    → ((x : A) → (p x && q x) ≡ p x)
    → any q xs ≡ false
    → any p xs ≡ false
any-weaken p q [] h e = refl
any-weaken p q (x ∷ xs) h e = ground (arith, h x, any-weaken p q xs h)

is_by_member-is_trace :
    (org : ℕ) (us : List UserRow) (e : Entry)
    → (is_by_member org us e && is_trace org us e) ≡ is_by_member org us e
unfolding is_by_member is_trace
is_by_member-is_trace org us e = ground arith

about-is_trace :
    (org : ℕ) (us : List UserRow) (e : Entry)
    → ((e.org == org) && is_trace org us e) ≡ (e.org == org)
unfolding is_trace
about-is_trace org us e = ground arith

-- The same of the transaction.
abbrev IsErasure : ℕ → Accounts → List Entry → Result (Unit {0}) × (Accounts × List Entry) → Type 0
IsErasure org old trail (ok _, (t, log)) =
    (holds_org org t ≡ false)
    × (any (λ e. e.org == org) log ≡ false)
    × (any (is_by_member org old.users) log ≡ false)
IsErasure org old trail (err _, (t, log)) = (t ≡ old) × (log ≡ trail)

erase_org_tx-IsErasure :
    (org : ℕ) (t : Accounts) (log : List Entry) → IsErasure org t log (erase_org_tx org (t, log))
unfolding erase_org_tx holds_org
erase_org_tx-IsErasure org t log = go (any (λ r. r.org.id == org) t.orgs)
  where
    go :
        (b : Bool)
        → IsErasure org t log (
            if b
            then (
              ok tt,
              (
                record t {
                  orgs = filter (λ r. not (r.org.id == org)) t.orgs;
                  users = filter (λ r. not (r.user.org == org)) t.users;
                  tokens =
                      filter
                        (λ k. not (any (λ r. r.user.id == k.user && r.user.org == org) t.users))
                        t.tokens;
                },
                filter (λ e. not (is_trace org t.users e)) log,
              ),
            )
            else (err (new_error not_found "organization not found"), (t, log)))
    go true =
        let bare = any-filter (is_trace org t.users) log in
        (
          ground (
            arith,
            any-filter (λ r. r.org.id == org) t.orgs,
            any-filter (λ r. r.user.org == org) t.users,
          ),
          any-weaken (λ e. e.org == org) (is_trace org t.users) _ (about-is_trace org t.users) bare,
          any-weaken (is_by_member org t.users) (is_trace org t.users) _
              (is_by_member-is_trace org t.users) bare,
        )
    go false = (refl, refl)

module _ (billing : Option (ℕ → Bool)) (org : ℕ) where
  synced-IsAllOrNothing :
      (old w : World Tables)
      → IsAllOrNothing billing org old (ok tt, w)
      → IsAllOrNothing billing org old ((best_effort request_sync >>= λ synced. pure tt) w)
  unfolding request_sync db
  synced-IsAllOrNothing old w h = go w.faults
    where
      go :
          (fs : List Bool)
          → IsAllOrNothing billing org old
              ((best_effort request_sync >>= λ synced. pure tt) (record w { faults = fs }))
      go [] = h
      go (true ∷ fs) = h
      go (false ∷ fs) = h

  erase-IsAllOrNothing :
      (w : World Tables)
      → is_closed billing org w.tables.closed ≡ true
      → IsAllOrNothing billing org w (erase org w)
  unfolding erase delete_organization
  erase-IsAllOrNothing w c =
      db_audited_rule (IsAllOrNothing billing org w) w _ _
        (λ fs.
          go fs (erase_org_tx org (w.tables.accounts, w.audit)).0
            (erase_org_tx org (w.tables.accounts, w.audit)).1.0
            (erase_org_tx org (w.tables.accounts, w.audit)).1.1
            (erase_org_tx-IsErasure org w.tables.accounts w.audit))
        (λ fs. (refl, refl))
    where
      go :
          (fs : List Bool) (r : Result (Unit {0})) (a : Accounts) (log : List Entry)
          → IsErasure org w.tables.accounts w.audit (r, (a, log))
          → IsAllOrNothing billing org w (
              and_then r
                (record { tables = record w.tables { accounts = a }; faults = fs; audit = log })
                (λ _. best_effort request_sync >>= λ synced. pure tt))
      go fs (ok _) a log (gone, about, members) =
          synced-IsAllOrNothing w _ (gone, about, members, c)
      go fs (err _) a log h = h

closed-IsAllOrNothing :
    (billing : Option (ℕ → Bool)) (org : ℕ) (w : World Tables)
    → IsAllOrNothing billing org w ((close_billing billing org >> erase org) w)
closed-IsAllOrNothing none org w = erase-IsAllOrNothing none org w refl
closed-IsAllOrNothing (some answers) org w = go (answers org)
  where
    go : (b : Bool) → IsAllOrNothing (some answers) org w ((close_with b org >> erase org) w)
    go true = erase-IsAllOrNothing (some answers) org _ (ground arith)
    go false = (refl, refl)

guarded :
    (billing : Option (ℕ → Bool)) (org : ℕ) (b : Bool) (e : AppError) (k : M Tables (Unit {0}))
    (w : World Tables)
    → IsAllOrNothing billing org w (k w)
    → IsAllOrNothing billing org w ((guard b e >> k) w)
guarded billing org true e k w h = h
guarded billing org false e k w h = (refl, refl)

confirmed-IsAllOrNothing :
    (billing : Option (ℕ → Bool)) (org : ℕ) (confirm : Text) (u : User) (w : World Tables)
    → IsAllOrNothing billing org w (delete_confirmed billing org confirm u w)
unfolding delete_confirmed
confirmed-IsAllOrNothing billing org confirm u w =
    let closing = close_billing billing org >> erase org in
    let retyped = equal_fold (trim_space confirm) u.email in
    let typed =
      guarded billing org retyped
        (validation_error "type your account email to confirm" ("confirm_email" ∷ [])) closing w
        (closed-IsAllOrNothing billing org w) in
    let owned =
      guarded billing org (is_owner u.role)
        (new_error forbidden "only the account owner can delete the account")
        (guard retyped
            (validation_error "type your account email to confirm" ("confirm_email" ∷ []))
          >> closing)
        w typed in
    guarded billing org (u.org == org) (new_error forbidden "you can only delete your own account")
      (guard (is_owner u.role) (new_error forbidden "only the account owner can delete the account")
        >> (guard retyped
              (validation_error "type your account email to confirm" ("confirm_email" ∷ []))
            >> closing))
      w owned

-- A deletion that succeeds has closed the organization's billing, where there is billing, and erased the
-- organization, its users and every entry of the audit log about it or by one of them; one that fails,
-- wherever, leaves the accounts and the audit log as they were.
pub delete-IsAllOrNothing :
    (billing : Option (ℕ → Bool)) (user org : ℕ) (confirm : Text) (w : World Tables)
    → IsAllOrNothing billing org w (delete billing user org confirm w)
unfolding delete get_user
delete-IsAllOrNothing billing user org confirm w =
    db_rule (IsAllOrNothing billing org w) w _ _
      (λ fs. go fs (user_result (find (is_user user) w.tables.accounts.users))) (λ fs. (refl, refl))
  where
    go :
        (fs : List Bool) (r : Result User)
        → IsAllOrNothing billing org w
            (and_then r (record w { faults = fs }) (delete_confirmed billing org confirm))
    go fs (err _) = (refl, refl)
    go fs (ok u) = confirmed-IsAllOrNothing billing org confirm u (record w { faults = fs })
