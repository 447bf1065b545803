-- ===== src/World/Rules.antt =====
-- Rules to reason about a service call one step at a time.
use beaconpulse.Prelude.{ap, inr, inl, ◌⊎◌, ◌≡◌, refl, arith, Bool, true, false, List, [], ◌∷◌}
use beaconpulse.World.{
  db_audited, transaction_faults, guard, internal_error, ◌>>◌, AppError, Entry, Result, ok, err,
  World, M, ◌>>=◌, and_then, record_audit, db, run_faults,
}

pub Result-cases :
    {A : Type 0} (r : Result A) → ((a : A) × (r ≡ ok a)) ⊎ ((e : AppError) × (r ≡ err e))
Result-cases (ok a) = inl (a, refl)
Result-cases (err e) = inr (e, refl)

module _ {T A B : Type 0} (m : M T A) (f : A → M T B) (w : World T)
    (P : Result B × World T → Type 0) where
  -- What a sequence returns is what its second part returns, or the first part's error.
  pub bind_rule :
      ((a : A) (w' : World T) → m w ≡ (ok a, w') → P (f a w'))
      → ((e : AppError) (w' : World T) → m w ≡ (err e, w') → P (err e, w'))
      → P ((m >>= f) w)
  bind_rule good bad = go (m w).0 (m w).1 refl
    where
      go : (r : Result A) (w' : World T) → m w ≡ (r, w') → P (and_then r w' f)
      go (ok a) w' e = good a w' e
      go (err x) w' e = bad x w' e

module _ {T : Type 0} where
  -- The audit log takes no part in the tables.
  pub tables-record_audit : (e : Entry) (w : World T) → (record_audit e w).1.tables ≡ w.tables
  unfolding record_audit
  tables-record_audit e w = ground arith

  pub record_audit-ok : (e : Entry) (w : World T) → (record_audit e w).0 ≡ ok tt
  unfolding record_audit
  record_audit-ok e w = refl

module _ {T A : Type 0} where
  -- A statement keeps what its effect on the tables keeps.
  pub db-keeps :
      (P : T → Type 0) (q : T → Result A × T) (w : World T)
      → P w.tables
      → P (q w.tables).1
      → P (db q w).1.tables
  unfolding db
  db-keeps P q w before after = go w.faults
    where
      go : (fs : List Bool) → P (run_faults fs q w).1.tables
      go [] = after
      go (true ∷ fs) = before
      go (false ∷ fs) = after

  -- A statement that succeeds has had its effect.
  pub db-ok :
      (q : T → Result A × T) (w : World T) {a : A}
      → (db q w).0 ≡ ok a
      → ((q w.tables).0 ≡ ok a) × ((db q w).1.tables ≡ (q w.tables).1)
  unfolding db
  db-ok q w {a = a} h = go w.faults h
    where
      go :
          (fs : List Bool)
          → (run_faults fs q w).0 ≡ ok a
          → ((q w.tables).0 ≡ ok a) × ((run_faults fs q w).1.tables ≡ (q w.tables).1)
      go [] e = (e, refl)
      go (true ∷ fs) e = ground arith
      go (false ∷ fs) e = (e, refl)

module _ {T A B : Type 0} (m : M T A) (f : A → M T B) (w : World T) where
  -- A continuation that leaves the tables alone.
  pub tables-bind :
      ((a : A) (w' : World T) → (f a w').1.tables ≡ w'.tables)
      → ((m >>= f) w).1.tables ≡ (m w).1.tables
  tables-bind h = go (m w).0 (m w).1
    where
      go : (r : Result A) (w' : World T) → (and_then r w' f).1.tables ≡ w'.tables
      go (ok a) w' = h a w'
      go (err e) w' = refl

module _ {T A : Type 0} (m : M T A) (f : A → M T A) (w : World T) where
  -- A continuation that returns what it is given.
  pub result-bind : ((a : A) (w' : World T) → (f a w').0 ≡ ok a) → ((m >>= f) w).0 ≡ (m w).0
  result-bind h = go (m w).0 (m w).1
    where
      go : (r : Result A) (w' : World T) → (and_then r w' f).0 ≡ r
      go (ok a) w' = h a w'
      go (err e) w' = refl

module _ {T B : Type 0} (P : Result B × World T → Type 0) (w : World T) where
  -- A guard that is passed leaves the world as it was.
  pub guard_rule :
      (b : Bool) (e : AppError) (k : M T B)
      → (b ≡ true → P (k w))
      → P (err e, w)
      → P ((guard b e >> k) w)
  guard_rule true e k good bad = good refl
  guard_rule false e k good bad = bad

  -- A statement takes effect, or fails with no effect.
  pub db_rule :
      {A : Type 0} (q : T → Result A × T) (f : A → M T B)
      → ((fs : List Bool)
          → P (and_then (q w.tables).0 (record w { tables = (q w.tables).1; faults = fs }) f))
      → ((fs : List Bool) → P (err internal_error, record w { faults = fs }))
      → P ((db q >>= f) w)
  unfolding db
  db_rule q f good bad = go w.faults
    where
      go : (fs : List Bool) → P (let (r, w') = run_faults fs q w in and_then r w' f)
      go [] = good []
      go (true ∷ fs) = bad fs
      go (false ∷ fs) = good fs

  -- The same for the last statement of a call.
  pub db_last_rule :
      (q : T → Result B × T)
      → ((fs : List Bool) → P ((q w.tables).0, record w { tables = (q w.tables).1; faults = fs }))
      → ((fs : List Bool) → P (err internal_error, record w { faults = fs }))
      → P (db q w)
  unfolding db
  db_last_rule q good bad = go w.faults
    where
      go : (fs : List Bool) → P (run_faults fs q w)
      go [] = good []
      go (true ∷ fs) = bad fs
      go (false ∷ fs) = good fs

  -- The same for a transaction on the tables and the audit log.
  pub db_audited_rule :
      {A : Type 0} (q : T × List Entry → Result A × (T × List Entry)) (f : A → M T B)
      → ((fs : List Bool)
          → let (r, x) = q (w.tables, w.audit) in
            P (and_then r (record { tables = x.0; faults = fs; audit = x.1 }) f))
      → ((fs : List Bool) → P (err internal_error, record w { faults = fs }))
      → P ((db_audited q >>= f) w)
  unfolding db_audited
  db_audited_rule q f good bad = go w.faults
    where
      go : (fs : List Bool) → P (let (r, w') = transaction_faults fs q w in and_then r w' f)
      go [] = good []
      go (true ∷ fs) = bad fs
      go (false ∷ fs) = good fs

  -- A record in the audit log cannot fail and leaves the tables as they were.
  pub audit_rule :
      (e : Entry) (k : M T B)
      → ((w' : World T) → w'.tables ≡ w.tables → P (k w'))
      → P ((record_audit e >> k) w)
  unfolding record_audit
  audit_rule e k good = good (record_audit e w).1 (tables-record_audit e w)

module _ {T A B : Type 0} (m : M T A) (f : A → M T B) (w : World T) where
  -- A sequence that succeeds is its second part, run on what the first part returned and left.
  pub bind-ok :
      {b : B}
      → ((m >>= f) w).0 ≡ ok b
      → (a : A) × ((m w).0 ≡ ok a) × ((f a (m w).1).0 ≡ ok b) × ((m >>= f) w ≡ f a (m w).1)
  bind-ok = go (m w).0 (m w).1
    where
      go :
          (r : Result A) (w' : World T) {b : B}
          → (and_then r w' f).0 ≡ ok b
          → (a : A) × (r ≡ ok a) × ((f a w').0 ≡ ok b) × (and_then r w' f ≡ f a w')
      go (ok a) w' h = (a, refl, h, refl)
      go (err e) w' h = ground arith

  -- The same, forwards.
  pub bind-run : {a : A} → (m w).0 ≡ ok a → (m >>= f) w ≡ f a (m w).1
  bind-run e = ap (λ r. and_then r (m w).1 f) e
