-- ===== src/World.antt =====
-- What every service shares: the errors (backend/internal/platform/apperror/apperror.go), the audit
-- log (backend/internal/domain/audit), and the monad in which a service call runs. A world holds the
-- tables of a component, the audit log and a schedule of faults: each statement that reaches the
-- database takes the head of the schedule and fails, with no effect, if that is true.
pub mod Rules
pub mod Keeping
use beaconpulse.Prelude.{ℕ, String, Bool, true, false, Option, List, [], ◌∷◌}

-- apperror.Code
pub data Code : Type 0 where
  validation unauthorized forbidden not_found conflict quota_exceeded : Code
  rate_limited internal unavailable : Code

-- apperror.Error. Of a message with parameters the format stands; of the field errors the field.
pub record AppError : Type 0 where
  pub code : Code
  pub message : String
  pub fields : List String

abbrev pub new_error : Code → String → AppError
new_error c m = record { code = c; message = m; fields = [] }

abbrev pub validation_error : String → List String → AppError
validation_error m fs = record { code = validation; message = m; fields = fs }

-- apperror.Internal: the cause is kept for the logs only.
abbrev pub internal_error : AppError
internal_error = new_error internal "an internal error occurred"

unfoldable pub http_status : AppError → ℕ
http_status e = elim e.code [
  | validation ↦ 400
  | unauthorized ↦ 401
  | forbidden ↦ 403
  | not_found ↦ 404
  | conflict ↦ 409
  | quota_exceeded ↦ 402
  | rate_limited ↦ 429
  | unavailable ↦ 503
  | internal ↦ 500
]

pub data Result (A : Type 0) : Type 0 where
  ok : A → Result A
  err : AppError → Result A

-- audit.Entry, less the request's metadata.
pub record Entry : Type 0 where
  pub action : String
  pub org : ℕ
  pub user : Option ℕ
  pub resource : ℕ

pub record World (T : Type 0) : Type 0 where
  pub tables : T
  pub faults : List Bool
  pub audit : List Entry

abbrev pub M : Type 0 → Type 0 → Type 0
M T A = World T → Result A × World T

module _ {T A B : Type 0} where
  abbrev pub and_then : Result A → World T → (A → M T B) → Result B × World T
  and_then (ok a) w f = f a w
  and_then (err e) w f = (err e, w)

  infixl 5 ◌>>=◌
  abbrev pub ◌>>=◌ : M T A → (A → M T B) → M T B
  ◌>>=◌ m f w = let (r, w') = m w in and_then r w' f

infixl 5 ◌>>◌
abbrev pub ◌>>◌ : {T B : Type 0} → M T (Unit {0}) → M T B → M T B
◌>>◌ m k = m >>= λ _. k

module _ {T A : Type 0} where
  abbrev pub pure : A → M T A
  pure a w = (ok a, w)

  abbrev pub throw : AppError → M T A
  throw e w = (err e, w)

  -- `_ = call` and `x, _ := call`: the caller goes on whatever the call returned.
  abbrev pub best_effort : M T A → M T (Result A)
  best_effort m w = let (r, w') = m w in (ok r, w')

  abbrev pub statement : Bool → List Bool → (T → Result A × T) → M T A
  statement true rest q w = (err internal_error, record w { faults = rest })
  statement false rest q w = let (r, t) = q w.tables in (r, record w { tables = t; faults = rest })

  abbrev run_faults : List Bool → (T → Result A × T) → M T A
  run_faults [] q = statement false [] q
  run_faults (f ∷ rest) q = statement f rest q

  -- One statement or transaction on the database.
  unfoldable pub db : (T → Result A × T) → M T A
  db q w = run_faults w.faults q w

module _ {T A : Type 0} where
  abbrev transaction : Bool → List Bool → (T × List Entry → Result A × (T × List Entry)) → M T A
  transaction true rest q w = (err internal_error, record w { faults = rest })
  transaction false rest q w =
      let (r, x) = q (w.tables, w.audit) in (r, record { tables = x.0; faults = rest; audit = x.1 })

  abbrev transaction_faults : List Bool → (T × List Entry → Result A × (T × List Entry)) → M T A
  transaction_faults [] q = transaction false [] q
  transaction_faults (f ∷ rest) q = transaction f rest q

  -- One transaction that reaches the audit log as well.
  unfoldable pub db_audited : (T × List Entry → Result A × (T × List Entry)) → M T A
  db_audited q w = transaction_faults w.faults q w

abbrev pub guard : {T : Type 0} → Bool → AppError → M T (Unit {0})
guard true e w = (ok tt, w)
guard false e w = (err e, w)

abbrev recorded : {T : Type 0} → Entry → Bool → List Bool → World T → World T
recorded e true rest w = record w { faults = rest }
recorded e false rest w = record w { faults = rest; audit = e ∷ w.audit }

abbrev record_faults : {T : Type 0} → Entry → List Bool → World T → World T
record_faults e [] w = recorded e false [] w
record_faults e (f ∷ rest) w = recorded e f rest w

-- `_ = auditlog.Record(…)`: a write that fails is logged and dropped.
unfoldable pub record_audit : {T : Type 0} → Entry → M T (Unit {0})
record_audit e w = (ok tt, record_faults e w.faults w)
