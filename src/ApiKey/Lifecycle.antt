-- ===== src/ApiKey/Lifecycle.antt =====
-- From the minting of a key to its revocation.
use beaconpulse.Prelude.{
  Option, none, ℕ, ◌≡◌, ◌∙◌, ap, refl, inl, inr, true, false, some, List, [], ◌∷◌, ◌++◌, arith,
  Bool-cases,
}
use beaconpulse.Text.{Text, text_eq}
use beaconpulse.Text.Laws.{text_eq_refl, has_prefix-append}
use beaconpulse.World.{ok, err, World, db, record_audit}
use beaconpulse.ApiKey.{
  Key, Keys, Actor, CreateInput, key_prefix, active, looks, issue, issued, create_key, insert_key,
  generate, row_of_hash, by_hash, revoke, revoke_key, revoke_tx, revoke_rows, revoked_row, admit,
  verify, invalid_key,
}

hash-revoked_row : (org id at : ℕ) (k : Key) → (revoked_row org id at k).hash ≡ k.hash
hash-revoked_row org id at k = ground arith

find-revoke_rows :
    (org id at : ℕ) (h : Text) (rows : List Key) {k : Key}
    → row_of_hash h rows ≡ some k
    → row_of_hash h (revoke_rows org id at rows) ≡ some (revoked_row org id at k)
unfolding row_of_hash revoke_rows
find-revoke_rows org id at h [] e = ground arith
find-revoke_rows org id at h (r ∷ rows) {k = k} e = elim (Bool-cases (text_eq r.hash h)) [
  | inl same ↦ ground (arith, hash-revoked_row org id at r)
  | inr other ↦
      let rest : row_of_hash h rows ≡ some k = ground arith in
      ground (arith, find-revoke_rows org id at h rows rest, hash-revoked_row org id at r)
]

revoked_row-inactive :
    (org id at now : ℕ) (k : Key)
    → k.id ≡ id
    → k.org ≡ org
    → active (revoked_row org id at k) now ≡ false
unfolding active
revoked_row-inactive org id at now k same_id same_org = ground arith

revoke-rows :
    (now : ℕ) (actor : Actor) (id : ℕ) (w : World Keys)
    → (revoke now actor id w).0 ≡ ok tt
    → (revoke now actor id w).1.tables.rows ≡ revoke_rows actor.org id now w.tables.rows
unfolding revoke revoke_key revoke_tx db record_audit
revoke-rows now actor id w h = ground arith

verify-inactive :
    (hash_of : Text → Text) (now : ℕ) (secret : Text) (w : World Keys) {k : Key}
    → row_of_hash (hash_of secret) w.tables.rows ≡ some k
    → active k now ≡ false
    → (verify hash_of now secret w).0 ≡ err invalid_key
unfolding verify admit by_hash db
verify-inactive hash_of now secret w found dead = ground arith

verify-active :
    (hash_of : Text → Text) (now : ℕ) (secret : Text) (w : World Keys) {k : Key}
    → w.faults ≡ []
    → looks secret ≡ true
    → row_of_hash (hash_of secret) w.tables.rows ≡ some k
    → active k now ≡ true
    → (verify hash_of now secret w).0 ≡ ok (record { key_id = k.id; org = k.org; role = k.role })
unfolding verify admit by_hash db
verify-active hash_of now secret w calm shaped found live = ground arith

looks-generate : (fresh : Text) → looks (key_prefix ++ fresh) ≡ true
unfolding looks
looks-generate fresh = has_prefix-append key_prefix fresh

issue-rows :
    (hash_of : Text → Text) (drawn : Option Text) (id now : ℕ) (actor : Actor) (input : CreateInput)
    (w : World Keys) {k : Key} {secret : Text}
    → (issue hash_of drawn id now actor input w).0 ≡ ok (k, secret)
    → (issue hash_of drawn id now actor input w).1.tables.rows ≡ k ∷ w.tables.rows
unfolding issue create_key insert_key db record_audit
issue-rows hash_of drawn id now actor input w h = ground arith

issue-secret :
    (hash_of : Text → Text) (drawn : Option Text) (id now : ℕ) (actor : Actor) (input : CreateInput)
    (w : World Keys) {k : Key} {secret : Text}
    → (issue hash_of drawn id now actor input w).0 ≡ ok (k, secret)
    → (looks secret ≡ true) × (k.hash ≡ hash_of secret)
unfolding issue issued generate create_key
issue-secret hash_of none id now actor input w h = ground arith
issue-secret hash_of (some fresh) id now actor input w h = ground (arith, looks-generate fresh)

find-head : (k : Key) (h : Text) (rows : List Key) → k.hash ≡ h → row_of_hash h (k ∷ rows) ≡ some k
unfolding row_of_hash
find-head k h rows e = ground (arith, text_eq_refl h)

module _ (hash_of : Text → Text) (now : ℕ) (actor : Actor) (w : World Keys) where
  -- Revocation is immediate and final: once an owner or admin has revoked a key of the organization,
  -- its secret is refused in every later state that holds the tables it left, at any time and whichever
  -- statements fail.
  pub revoke-verify :
      (later : ℕ) (secret : Text) (k : Key) (w' : World Keys)
      → row_of_hash (hash_of secret) w.tables.rows ≡ some k
      → k.org ≡ actor.org
      → (revoke now actor k.id w).0 ≡ ok tt
      → w'.tables ≡ (revoke now actor k.id w).1.tables
      → (verify hash_of later secret w').0 ≡ err invalid_key
  revoke-verify later secret k w' found own revoked same =
      verify-inactive hash_of later secret w'
        (ap (λ t. row_of_hash (hash_of secret) t.rows) same
          ∙ ap (row_of_hash (hash_of secret)) (revoke-rows now actor k.id w revoked)
          ∙ find-revoke_rows actor.org k.id now (hash_of secret) w.tables.rows found)
        (revoked_row-inactive actor.org k.id now later k refl own)

  -- A minted secret opens the organization with the role it was minted with, for as long as the key is
  -- active and the database answers.
  pub issue-verify :
      (drawn : Option Text) (id later : ℕ) (input : CreateInput) (w' : World Keys) {k : Key}
      {secret : Text}
      → (issue hash_of drawn id now actor input w).0 ≡ ok (k, secret)
      → w'.tables ≡ (issue hash_of drawn id now actor input w).1.tables
      → w'.faults ≡ []
      → active k later ≡ true
      → (verify hash_of later secret w').0
        ≡ ok (record { key_id = k.id; org = k.org; role = k.role })
  issue-verify drawn id later input w' {k = k} {secret = secret} minted same calm live =
      let (shape, hashed) = issue-secret hash_of drawn id now actor input w minted in
      verify-active hash_of later secret w' calm shape
        (ap (λ t. row_of_hash (hash_of secret) t.rows) same
          ∙ ap (row_of_hash (hash_of secret)) (issue-rows hash_of drawn id now actor input w minted)
          ∙ find-head k (hash_of secret) w.tables.rows hashed)
        live
