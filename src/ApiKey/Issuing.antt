-- ===== src/ApiKey/Issuing.antt =====
-- Who may mint a key, how much it can do, and what is kept of it.
use beaconpulse.Prelude.{
  Option, ℕ, ◌++◌, ◌≤◌, ◌≡◌, ◌∙◌, sym, ap, true, false, none, some, arith, List, ◌∷◌, take, refl,
}
use beaconpulse.Text.{trim_space, Text, is_empty, codes}
use beaconpulse.World.{record_audit, db, ok, World}
use beaconpulse.Role
use beaconpulse.ApiKey.{
  Key, Keys, Actor, CreateInput, rank, issue, issued, create_key, generate, in_future, insert_key,
}

-- What a mint that succeeds has checked, returns and keeps.
pub record IsMinted (hash_of : Text → Text) (drawn : Option Text) (now : ℕ) (actor : Actor)
    (before after : List Key) (k : Key) (secret : Text) : Type 0 where
  pub administered : Role.can_administer actor.role ≡ true
  pub capped : rank k.role ≤ rank actor.role
  pub owned : k.org ≡ actor.org
  pub named : is_empty k.name ≡ false
  pub unrevoked : k.revoked_at ≡ none
  pub unexpired : in_future k.expires_at now ≡ true
  pub fresh : (random : Text) × ((drawn ≡ some random) × (secret ≡ codes "bp_" ++ random))
  pub stored : after ≡ k ∷ before
  pub hashed : k.hash ≡ hash_of secret
  pub shown : k.prefix ≡ take 12 secret

module _ (hash_of : Text → Text) (id now : ℕ) (actor : Actor) (input : CreateInput)
    (w : World Keys) where
  issue-parts :
      (drawn : Option Text) {k : Key} {secret : Text}
      → (issue hash_of drawn id now actor input w).0 ≡ ok (k, secret)
      → (random : Text) × ((drawn ≡ some random)
          × ((k ≡ issued hash_of random id now actor input (trim_space input.name))
              × ((secret ≡ codes "bp_" ++ random)
                  × ((issue hash_of drawn id now actor input w).1.tables.rows
                      ≡ k ∷ w.tables.rows))))
  unfolding issue generate create_key issued db insert_key record_audit
  issue-parts none h = ground arith
  issue-parts (some random) h = (random, (refl, (ground arith, (ground arith, ground arith))))

module _ (hash_of : Text → Text) (drawn : Option Text) (id now : ℕ) (actor : Actor)
    (input : CreateInput) (w : World Keys) where
  issue-checks :
      {k : Key} {secret : Text}
      → (issue hash_of drawn id now actor input w).0 ≡ ok (k, secret)
      → (Role.can_administer actor.role ≡ true)
        × ((rank k.role ≤ rank actor.role)
            × ((is_empty k.name ≡ false) × (in_future k.expires_at now ≡ true)))
  unfolding issue issued create_key
  issue-checks h = ground arith

  -- A key is minted by an owner or admin only, for their own organization, with a name, never above
  -- the minter's own rank and not yet expired. Its secret is the prefix and the random part, and one row is
  -- added: the key that is returned, with the hash of the secret and the first twelve bytes of it to show.
  pub issue-IsMinted :
      {k : Key} {secret : Text}
      → (issue hash_of drawn id now actor input w).0 ≡ ok (k, secret)
      → IsMinted hash_of drawn now actor w.tables.rows
          (issue hash_of drawn id now actor input w).1.tables.rows
          k
          secret
  unfolding issued generate
  issue-IsMinted {k = k} {secret = secret} h =
      let (random, (found, (key, (plain, rows)))) =
        issue-parts hash_of id now actor input w drawn h in
      let (administered, (capped, (named, unexpired))) = issue-checks h in
      record {
        administered = administered;
        capped = capped;
        owned = ap (λ x. x.org) key;
        named = named;
        unrevoked = ap (λ x. x.revoked_at) key;
        unexpired = unexpired;
        fresh = (random, (found, plain));
        stored = rows;
        hashed = ap (λ x. x.hash) key ∙ ap hash_of (sym plain);
        shown = ap (λ x. x.prefix) key ∙ ap (take 12) (sym plain);
      }
