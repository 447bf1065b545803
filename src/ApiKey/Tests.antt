-- ===== src/ApiKey/Tests.antt =====
-- A key minted, presented and revoked, with an identity for the hash.
use beaconpulse.Prelude.{◌≡◌, refl, sym, true, none, some, [], ◌∷◌}
use beaconpulse.Text.{Text, codes, text_eq, has_prefix, trim_space}
use beaconpulse.World.{World, ok, err, db, record_audit}
use beaconpulse.Role.{owner, member}
use beaconpulse.ApiKey.{
  Key, Keys, Actor, CreateInput, Verified, issue, issued, generate, create_key, insert_key, verify,
  admit, by_hash, row_of_hash, touch_last_used, touch_rows, revoke, revoke_key, revoke_tx,
  revoke_rows, active, looks, invalid_key,
}
use beaconpulse.ApiKey.Issuing.{IsMinted, issue-IsMinted}
use beaconpulse.ApiKey.Lifecycle.{revoke-verify, issue-verify}

abbrev hash_of : Text → Text
hash_of s = s

abbrev boss : Actor
boss = record { user = 1; org = 7; role = owner }

abbrev wish : CreateInput
wish = record { name = codes "ci"; role = some member; expires_at = some 100 }

abbrev secret_text : Text
secret_text = codes "bp_abc"

abbrev stored : Key
stored = record {
  id = 5;
  org = 7;
  created_by = some 1;
  name = codes "ci";
  hash = codes "bp_abc";
  prefix = codes "bp_abc";
  role = member;
  created_at = 10;
  expires_at = some 100;
  revoked_at = none;
  last_used_at = none;
}

abbrev blank : World Keys
blank = record { tables = record { rows = [] }; faults = []; audit = [] }

abbrev minted : World Keys
minted = record blank { tables = record { rows = stored ∷ [] } }

abbrev revoked : World Keys
revoked = record blank { tables = record { rows = record stored { revoked_at = some 30 } ∷ [] } }

-- What the mint leaves: the secret once, and the row.
mint :
    ((issue hash_of (some (codes "abc")) 5 10 boss wish blank).0 ≡ ok (stored, secret_text))
    × ((issue hash_of (some (codes "abc")) 5 10 boss wish blank).1.tables ≡ minted.tables)
unfolding issue issued generate create_key insert_key db record_audit text_eq trim_space
mint = (refl, refl)

issue-IsMinted_example :
    IsMinted hash_of
      (some (codes "abc"))
      10
      boss
      []
      (issue hash_of (some (codes "abc")) 5 10 boss wish blank).1.tables.rows
      stored
      secret_text
issue-IsMinted_example = issue-IsMinted hash_of (some (codes "abc")) 5 10 boss wish blank (mint.0)

unknown : (verify hash_of 20 (codes "bp_x") minted).0 ≡ err invalid_key
unfolding verify admit looks by_hash row_of_hash db text_eq has_prefix
unknown = refl

abbrev granted : Verified
granted = record { key_id = 5; org = 7; role = member }

accepted : (verify hash_of 20 secret_text minted).0 ≡ ok granted
unfolding verify admit looks by_hash row_of_hash db text_eq has_prefix touch_last_used touch_rows
    active
accepted = refl

is_revoked : (revoke 30 boss 5 minted).0 ≡ ok tt
unfolding revoke revoke_key revoke_tx revoke_rows db record_audit
is_revoked = refl

revokes : revoked.tables ≡ (revoke 30 boss 5 minted).1.tables
unfolding revoke revoke_key revoke_tx revoke_rows db record_audit
revokes = refl

is_stored : row_of_hash secret_text (stored ∷ []) ≡ some stored
unfolding row_of_hash text_eq
is_stored = refl

is_active : active stored 20 ≡ true
unfolding active
is_active = refl

revoke-verify_example : (verify hash_of 40 secret_text revoked).0 ≡ err invalid_key
revoke-verify_example =
    revoke-verify hash_of 30 boss minted 40 secret_text stored revoked is_stored refl is_revoked
      revokes

issue-verify_example : (verify hash_of 20 secret_text minted).0 ≡ ok granted
issue-verify_example =
    issue-verify hash_of 10 boss blank (some (codes "abc")) 5 20 wish minted (mint.0) (sym (mint.1))
      refl is_active
