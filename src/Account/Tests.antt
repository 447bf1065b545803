-- ===== src/Account/Tests.antt =====
-- A deletion while the sync cannot be requested.
use beaconpulse.Account.Erasure.{delete-IsAllOrNothing, IsAllOrNothing}
use beaconpulse.Auth.Store.{is_trace, is_user, erase_org_tx, OrgRow}
use beaconpulse.Auth.{User}
use beaconpulse.Prelude.{◌≡◌, refl, true, false, some, none, Option, ℕ, [], ◌∷◌}
use beaconpulse.World.{Entry, db_audited, db, World, ok}
use beaconpulse.Role.{owner}
use beaconpulse.Text.{drop_while, trim, trim_space, text_eq, to_lower, equal_fold, codes}
use beaconpulse.Account.{
  request_sync, delete_organization, erase, delete_confirmed, get_user, Tables, delete,
}

abbrev ann : User
ann = record {
  id = 2;
  org = 7;
  email = codes "ann@acme.io";
  password_hash = codes "hash";
  google_sub = [];
  oidc_sub = [];
  name = codes "Ann";
  role = owner;
  is_active = true;
  email_verified_at = some 1;
  last_login_at = none;
  created_at = 1;
}

abbrev acme : OrgRow
acme = record {
  org = record { id = 7; name = codes "Acme"; slug = codes "acme" };
  status_page_slug = none;
  deleted = false;
}

abbrev entry : ℕ → Option ℕ → Entry
entry org user = record { action = "login"; org = org; user = user; resource = 0 }

-- The trail has an entry about the organization, one by its owner and one of another.
abbrev one_account : World Tables
one_account = record {
  tables = record {
    accounts = record {
      orgs = acme ∷ [];
      users = record { user = ann; deleted = false } ∷ [];
      tokens = [];
      outbox = [];
    };
    closed = [];
    syncs = 0;
  };
  faults = false ∷ false ∷ true ∷ [];
  audit = entry 7 none ∷ entry 0 (some 2) ∷ entry 8 (some 3) ∷ [];
}

delete-IsAllOrNothing_example :
    IsAllOrNothing
      (some (λ org. true))
      7
      one_account
      (delete (some (λ org. true)) 2 7 (codes "ann@acme.io") one_account)
delete-IsAllOrNothing_example =
    delete-IsAllOrNothing (some (λ org. true)) 2 7 (codes "ann@acme.io") one_account

deleted : (delete (some (λ org. true)) 2 7 (codes " Ann@Acme.io") one_account).0 ≡ ok tt
unfolding delete get_user delete_confirmed erase delete_organization erase_org_tx request_sync db
    db_audited is_user equal_fold to_lower text_eq trim_space trim drop_while
deleted = refl

trail :
    (delete (some (λ org. true)) 2 7 (codes " Ann@Acme.io") one_account).1.audit
    ≡ entry 8 (some 3) ∷ []
unfolding delete get_user delete_confirmed erase delete_organization erase_org_tx is_trace
    request_sync db db_audited is_user equal_fold to_lower text_eq trim_space trim drop_while
trail = refl
