-- ===== src/Ledger/Laws.antt =====
-- What the statements of the ledger do to a balance, whatever faults strike.
use beaconpulse.Prelude.{ℕ, ◌-◌, ◌*◌, ◌<◌, ◌≡◌, ◌⊎◌, true, ◌&&◌, arith, ◌==◌, if◌then◌else◌, leb}
use beaconpulse.World.{ok, err, World, db, internal_error}
use beaconpulse.Ledger.{
  Tables, charge, charge_credit, refund, balance, burn, deduct_credit, enabled_count, credit_org,
  add_credit,
}

balance-charge :
    (org cost k : ℕ) (t : Tables)
    → 0 < cost
    → ((charge org cost t).0 ≡ ok (leb cost (balance t org)))
      × (balance (charge org cost t).1 k
          ≡ (if k == org && leb cost (balance t org) then balance t k - cost else balance t k))
unfolding charge balance
balance-charge org cost k t h = ground arith

-- A charge either fails and changes nothing, or reports whether the balance covers the cost: if it
-- does, exactly the cost is taken from that balance and from no other; if not, no balance changes.
charge_credit_outcome :
    (org cost k : ℕ) (w : World Tables)
    → let (r, w') = charge_credit org cost w in
      ((r ≡ err internal_error) × (w'.tables ≡ w.tables))
      ⊎ ((r ≡ ok (leb cost (balance w.tables org)))
          × (balance w'.tables k ≡ (
              if k == org && leb cost (balance w.tables org)
              then balance w.tables k - cost
              else balance w.tables k)))
unfolding charge_credit db
charge_credit_outcome org cost k w = ground (arith, balance-charge org cost k w.tables)

balance-refund-charge :
    (org cost k : ℕ) (t : Tables)
    → 0 < cost
    → (charge org cost t).0 ≡ ok true
    → (refund org cost (charge org cost t).1).0 ≡ ok tt
    → balance (refund org cost (charge org cost t).1).1 k ≡ balance t k
unfolding charge refund credit_org add_credit balance
balance-refund-charge org cost k t h p q = ground arith

-- The meter burns the elapsed time once for each enabled monitor of an organization, down to zero and
-- no further, or fails and changes nothing; no balance grows by it.
deduct_credit_outcome :
    (elapsed k : ℕ) (w : World Tables)
    → let (r, w') = deduct_credit elapsed w in
      ((r ≡ err internal_error) × (w'.tables ≡ w.tables))
      ⊎ ((r ≡ ok tt)
          × (balance w'.tables k
              ≡ balance w.tables k - elapsed * enabled_count w.tables.monitors k))
unfolding deduct_credit db burn balance
deduct_credit_outcome elapsed k w = ground arith
