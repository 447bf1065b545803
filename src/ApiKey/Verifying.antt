-- ===== src/ApiKey/Verifying.antt =====
-- What a presented key resolves to, from its minting to its revocation.
use beaconpulse.Prelude.{ℕ, ◌≡◌, refl, inl, inr, true, Option, none, some, arith, Bool-cases}
use beaconpulse.Text.{Text}
use beaconpulse.World.{AppError, Result, ok, err, World, db}
use beaconpulse.ApiKey.{
  Key, Keys, Verified, active, looks, row_of_hash, by_hash, admit, verify, invalid_key,
}

-- The row that admission accepted.
admit_sound :
    (hash_of : Text → Text) (now : ℕ) (r : Result (Option Key)) (w : World Keys) {v : Verified}
    → (admit hash_of now r w).0 ≡ ok v
    → (k : Key) × (r ≡ ok (some k))
      × (active k now ≡ true)
      × (v ≡ record { key_id = k.id; org = k.org; role = k.role })
unfolding admit
admit_sound hash_of now (err e) w h = ground arith
admit_sound hash_of now (ok none) w h = ground arith
admit_sound hash_of now (ok (some k)) w h = (k, refl, ground arith, ground arith)

by_hash_lem :
    (h : Text) (w : World Keys) {k : Key}
    → (by_hash h w).0 ≡ ok (some k)
    → row_of_hash h w.tables.rows ≡ some k
unfolding by_hash db
by_hash_lem h w e = ground arith

module _ (hash_of : Text → Text) (now : ℕ) (secret : Text) (w : World Keys) where
  -- Whatever is wrong with a key, unknown, revoked, expired, malformed, or the database failing, the
  -- caller reads one and the same error.
  verify-opaque : {e : AppError} → (verify hash_of now secret w).0 ≡ err e → e ≡ invalid_key
  unfolding verify admit
  verify-opaque h = ground arith

  -- A key that is accepted is shaped as one, its hash is stored, the stored row is neither revoked nor
  -- expired, and the caller gets that row's organization and role.
  verify_sound :
      {v : Verified}
      → (verify hash_of now secret w).0 ≡ ok v
      → (k : Key) × (looks secret ≡ true)
        × (row_of_hash (hash_of secret) w.tables.rows ≡ some k)
        × (active k now ≡ true)
        × (v ≡ record { key_id = k.id; org = k.org; role = k.role })
  unfolding verify
  verify_sound h = elim (Bool-cases (looks secret)) [
    | inl shaped ↦
        let looked = by_hash (hash_of secret) w in
        let (k, found, live, same) = admit_sound hash_of now looked.0 looked.1 (ground arith) in
        (k, shaped, by_hash_lem (hash_of secret) w found, live, same)
    | inr odd ↦ ground arith
  ]
