-- ===== src/ControlPlane/Capping.antt =====
-- Which monitors are probed: capToPlan of backend/internal/adapter/controlplane/syncer.go. A list of
-- indices into the monitors is the list of those monitors; the keys of a map stand in one order.
pub mod Oldest
use beaconpulse.Prelude.{
  ℕ, Bool, true, not, ◌&&◌, Option, List, [], ◌∷◌, ◌++◌, any, filter, take, map, or_zero, ◌==◌,
  if◌then◌else◌,
}
use beaconpulse.Plan
use beaconpulse.Plan.{Plan}
use beaconpulse.Monitor.{Monitor}
use beaconpulse.ControlPlane.Sorting.{sort_by}

abbrev pub by_org : ℕ → List Monitor → List Monitor
by_org org ms = filter (λ m. m.org == org) ms

unfoldable pub has_id : ℕ → List Monitor → Bool
has_id id ms = any (λ m. m.id == id) ms

-- The keys of byOrg.
unfoldable pub orgs_of : List Monitor → List ℕ
orgs_of [] = []
orgs_of (m ∷ ms) =
    let rest = orgs_of ms in if any (λ o. o == m.org) rest then rest else m.org ∷ rest

-- A missing organization has the limits of the free plan.
unfoldable pub limit_of : Plan.Live → (ℕ → Option Plan) → ℕ → ℕ
limit_of live plans org = (Plan.limits_for live (or_zero (plans org) (Plan.other []))).max_monitors

unfoldable pub sort_by_age : List Monitor → List Monitor
sort_by_age ms = sort_by (λ m. m.created_at) ms

-- The monitors of an organization that its plan covers.
unfoldable pub covered : Plan.Live → (ℕ → Option Plan) → List Monitor → ℕ → List Monitor
covered live plans ms org = take (limit_of live plans org) (sort_by_age (by_org org ms))

-- Whether the id is a key of the map that the loop over the organizations fills.
unfoldable pub is_allowed : Plan.Live → (ℕ → Option Plan) → List Monitor → List ℕ → ℕ → Bool
is_allowed live plans ms orgs id = any (λ org. has_id id (covered live plans ms org)) orgs

unfoldable pub cap_to_plan : Plan.Live → (ℕ → Option Plan) → List Monitor → List Monitor
cap_to_plan live plans ms = filter (λ m. is_allowed live plans ms (orgs_of ms) m.id) ms
