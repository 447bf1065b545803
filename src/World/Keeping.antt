-- ===== src/World/Keeping.antt =====
-- A predicate on the tables that a call keeps, whatever fails in it: a call keeps what its statements
-- keep. The rules mirror the way calls are composed.
use beaconpulse.World.Rules.{db-keeps}
use beaconpulse.Prelude.{arith, if◌then◌else◌, Bool, true, false}
use beaconpulse.World.{
  err, ok, Entry, and_then, db, guard, throw, AppError, Result, World, best_effort, pure,
  record_audit, ◌>>=◌, M,
}

module _ {T : Type 0} (P : T → Type 0) where
  unfoldable pub Keeps : {A : Type 0} → M T A → Type 0
  Keeps m = (w : World T) → P w.tables → P (m w).1.tables

  pub Keeps-throw : (A : Type 0) (e : AppError) → Keeps (throw {A = A} e)
  unfolding Keeps
  Keeps-throw A e w h = h

  module _ {A : Type 0} where
    pub Keeps-pure : (a : A) → Keeps (pure a)
    unfolding Keeps
    Keeps-pure a w h = h

    pub Keeps-db : (q : T → Result A × T) → ((t : T) → P t → P (q t).1) → Keeps (db q)
    unfolding Keeps
    Keeps-db q k w h = db-keeps P q w h (k w.tables h)

    pub Keeps-best_effort : (m : M T A) → Keeps m → Keeps (best_effort m)
    unfolding Keeps
    Keeps-best_effort m k w h = k w h

    pub Keeps-if : (b : Bool) (m n : M T A) → Keeps m → Keeps n → Keeps (if b then m else n)
    unfolding Keeps
    Keeps-if true m n k l = k
    Keeps-if false m n k l = l

  pub Keeps-guard : (b : Bool) (e : AppError) → Keeps (guard b e)
  unfolding Keeps
  Keeps-guard true e w h = h
  Keeps-guard false e w h = h

  pub Keeps-record_audit : (e : Entry) → Keeps (record_audit e)
  unfolding Keeps record_audit
  Keeps-record_audit e w h = ground arith

  module _ {A B : Type 0} where
    pub Keeps-bind :
        (m : M T A) (f : A → M T B) → Keeps m → ((a : A) → Keeps (f a)) → Keeps (m >>= f)
    unfolding Keeps
    Keeps-bind m f k l w h = go (m w).0 (m w).1 (k w h)
      where
        go : (r : Result A) (w' : World T) → P w'.tables → P (and_then r w' f).1.tables
        go (ok a) w' h' = l a w' h'
        go (err e) w' h' = h'

pub ruleset keeps_rules = (
  Keeps-bind, Keeps-throw, Keeps-pure, Keeps-best_effort, Keeps-if, Keeps-guard, Keeps-record_audit,
)
