-- ===== src/Account.antt =====
-- Closing an account: backend/internal/domain/account. The billing service is told apart by
-- what it answers, none where it is not configured; `closed` are the organizations that it closed and
-- `syncs` counts the requests to reconcile the control plane.
pub mod Erasure
mod Tests
use beaconpulse.Prelude.{
  ℕ, ◌+◌, not, Bool, true, false, Option, none, some, List, [], ◌∷◌, ◌==◌, if◌then◌else◌, find,
}
use beaconpulse.Text.{Text, equal_fold, trim_space}
use beaconpulse.World.{
  Entry, db_audited, World, Result, ok, err, M, db, pure, throw, guard, best_effort, ◌>>◌, ◌>>=◌,
  new_error, validation_error, forbidden, unavailable,
}
use beaconpulse.Role
use beaconpulse.Role.{Role, owner}
use beaconpulse.Auth.{User}
use beaconpulse.Auth.Store.{is_user, user_result, Accounts, erase_org_tx}

pub record Tables : Type 0 where
  pub accounts : Accounts
  pub closed : List ℕ
  pub syncs : ℕ

abbrev pub is_owner : Role → Bool
is_owner owner = true
is_owner _ = false

unfoldable pub get_user : ℕ → M Tables User
get_user id = db (λ t. (user_result (find (is_user id) t.accounts.users), t))

abbrev erased :
    Tables → Result (Unit {0}) × (Accounts × List Entry) → Result (Unit {0}) × (Tables × List Entry)
erased t (r, (a, log)) = (r, (record t { accounts = a }, log))

unfoldable pub delete_organization : ℕ → M Tables (Unit {0})
delete_organization org = db_audited (λ x. erased (x.0) (erase_org_tx org (x.0.accounts, x.1)))

unfoldable pub request_sync : M Tables (Unit {0})
request_sync = db (λ t. (ok tt, record t { syncs = t.syncs + 1 }))

abbrev pub close_with : Bool → ℕ → M Tables (Unit {0})
close_with true org w =
    (ok tt, record w { tables = record w.tables { closed = org ∷ w.tables.closed } })
close_with false org w = (
  err (
      new_error unavailable
        "couldn't cancel your subscription, so nothing was deleted — try again or contact support"),
  w,
)

abbrev pub close_billing : Option (ℕ → Bool) → ℕ → M Tables (Unit {0})
close_billing none org = pure tt
close_billing (some answers) org = close_with (answers org) org

unfoldable pub erase : ℕ → M Tables (Unit {0})
erase org = do delete_organization org; synced ← best_effort request_sync; pure tt

unfoldable pub delete_confirmed : Option (ℕ → Bool) → ℕ → Text → User → M Tables (Unit {0})
delete_confirmed billing org confirm u = do
  guard (u.org == org) (new_error forbidden "you can only delete your own account")
  guard (is_owner u.role) (new_error forbidden "only the account owner can delete the account")
  guard (equal_fold (trim_space confirm) u.email)
      (validation_error "type your account email to confirm" ("confirm_email" ∷ []))
  close_billing billing org
  erase org

-- Service.Delete
unfoldable pub delete : Option (ℕ → Bool) → ℕ → ℕ → Text → M Tables (Unit {0})
delete billing user org confirm = do u ← get_user user; delete_confirmed billing org confirm u
