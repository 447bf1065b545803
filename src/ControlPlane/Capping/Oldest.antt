-- ===== src/ControlPlane/Capping/Oldest.antt =====
-- The oldest monitors of an organization, which capToPlan keeps.
use beaconpulse.Plan.{Plan}
use beaconpulse.ControlPlane.Sorting.{
  filter-sort_by, any-insert_by, any-sort_by, insert_by, sort_by,
}
use beaconpulse.Monitor.{Monitor}
use beaconpulse.Prelude.{
  any-factor, any-cong, ap, Bool-cases, any-false, ◌≡◌, refl, Bool, true, false, ◌∙◌, sym, arith,
  not, ◌&&◌, ℕ, zero, suc, List, [], ◌∷◌, All, any, take, filter, ◌==◌, Option, inl, inr,
}
use beaconpulse.Plan
use beaconpulse.ControlPlane.Capping.{
  cap_to_plan, is_allowed, limit_of, sort_by_age, covered, orgs_of, has_id, by_org,
}

-- Ids are the table's primary key.
abbrev pub distinct_ids : List Monitor → Bool
distinct_ids [] = true
distinct_ids (m ∷ ms) = not (has_id m.id ms) && distinct_ids ms

module _ {A : Type 0} where
  filter-cong : (p q : A → Bool) (xs : List A) → All (λ x. p x ≡ q x) xs → filter p xs ≡ filter q xs
  filter-cong p q [] h = refl
  filter-cong p q (x ∷ xs) (e, h) = ground (arith, e, filter-cong p q xs h)

  filter-filter : (p q : A → Bool) (xs : List A) → filter p (filter q xs) ≡ filter q (filter p xs)
  filter-filter p q [] = refl
  filter-filter p q (x ∷ xs) = ground (arith, filter-filter p q xs)

  filter_none : (p : A → Bool) (xs : List A) → any p xs ≡ false → filter p xs ≡ []
  filter_none p [] h = refl
  filter_none p (x ∷ xs) h = ground (arith, filter_none p xs)

  any-take : (p : A → Bool) (k : ℕ) (xs : List A) → any p (take k xs) ≡ true → any p xs ≡ true
  any-take p zero xs h = ground arith
  any-take p (suc k) [] h = ground arith
  any-take p (suc k) (x ∷ xs) h = ground (arith, any-take p k xs)

  any-filter : (p q : A → Bool) (xs : List A) → any p (filter q xs) ≡ any (λ x. q x && p x) xs
  any-filter p q [] = refl
  any-filter p q (x ∷ xs) = ground (arith, any-filter p q xs)

has_id-filter :
    (id : ℕ) (q : Monitor → Bool) (ms : List Monitor)
    → has_id id ms ≡ false
    → has_id id (filter q ms) ≡ false
unfolding has_id
has_id-filter id q [] h = refl
has_id-filter id q (m ∷ ms) h = ground (arith, has_id-filter id q ms)

distinct_ids-filter :
    (q : Monitor → Bool) (ms : List Monitor)
    → distinct_ids ms ≡ true
    → distinct_ids (filter q ms) ≡ true
distinct_ids-filter q [] h = refl
distinct_ids-filter q (m ∷ ms) h = ground (arith, distinct_ids-filter q ms, has_id-filter m.id q ms)

distinct_ids-insert_by :
    (key : Monitor → ℕ) (x : Monitor) (ys : List Monitor)
    → has_id x.id ys ≡ false
    → distinct_ids ys ≡ true
    → distinct_ids (insert_by key x ys) ≡ true
unfolding insert_by has_id
distinct_ids-insert_by key x [] h d = refl
distinct_ids-insert_by key x (y ∷ ys) h d =
    ground (arith, distinct_ids-insert_by key x ys, any-insert_by key (λ m. m.id == y.id) x ys)

distinct_ids-sort_by :
    (key : Monitor → ℕ) (ms : List Monitor)
    → distinct_ids ms ≡ true
    → distinct_ids (sort_by key ms) ≡ true
unfolding sort_by has_id
distinct_ids-sort_by key [] h = refl
distinct_ids-sort_by key (m ∷ ms) h =
    distinct_ids-insert_by key m (sort_by key ms)
      (any-sort_by key (λ x. x.id == m.id) ms ∙ ground arith)
      (distinct_ids-sort_by key ms (ground arith))

apart :
    (x : Monitor) (xs ms : List Monitor)
    → has_id x.id ms ≡ false
    → All (λ m. has_id m.id (x ∷ xs) ≡ has_id m.id xs) ms
unfolding has_id
apart x xs [] h = tt
apart x xs (m ∷ ms) h = (ground arith, apart x xs ms (ground arith))

filter-take :
    (k : ℕ) (ms : List Monitor)
    → distinct_ids ms ≡ true
    → filter (λ m. has_id m.id (take k ms)) ms ≡ take k ms
unfolding has_id
filter-take zero ms h = filter_none (λ _. false) ms (any-false ms)
filter-take (suc k) [] h = refl
filter-take (suc k) (m ∷ ms) h =
    let rest =
      filter-cong (λ x. has_id x.id (m ∷ take k ms)) (λ x. has_id x.id (take k ms)) ms
        (apart m (take k ms) ms (ground arith)) in
    ground (arith, rest, filter-take k ms)

abbrev is_of : ℕ → ℕ → Monitor → Bool
is_of org id m = m.org == org && m.id == id

absent : (org id : ℕ) (ms : List Monitor) → has_id id ms ≡ false → any (is_of org id) ms ≡ false
unfolding has_id
absent org id [] h = refl
absent org id (m ∷ ms) h = ground (arith, absent org id ms)

wider :
    (x : Monitor) (xs ms : List Monitor)
    → has_id x.id ms ≡ false
    → All (λ m. (org : ℕ) → any (is_of org m.id) xs ≡ (m.org == org)) ms
    → All (λ m. (org : ℕ) → any (is_of org m.id) (x ∷ xs) ≡ (m.org == org)) ms
unfolding has_id
wider x xs [] h hs = tt
wider x xs (m ∷ ms) h (e, hs) = (λ org. ground (arith, e org), wider x xs ms (ground arith) hs)

-- The organization of an id.
owned :
    (ms : List Monitor)
    → distinct_ids ms ≡ true
    → All (λ m. (org : ℕ) → any (is_of org m.id) ms ≡ (m.org == org)) ms
owned [] h = tt
owned (m ∷ ms) h = (
  λ org. ground (arith, absent org m.id ms (ground arith)),
  wider m ms ms (ground arith) (owned ms (ground arith)),
)

listed_later :
    (x : Monitor) (xs ms : List Monitor)
    → All (λ m. any (λ o. o == m.org) (orgs_of xs) ≡ true) ms
    → All (λ m. any (λ o. o == m.org) (orgs_of (x ∷ xs)) ≡ true) ms
unfolding orgs_of
listed_later x xs [] hs = tt
listed_later x xs (m ∷ ms) (e, hs) = (ground (arith, e), listed_later x xs ms hs)

listed : (ms : List Monitor) → All (λ m. any (λ o. o == m.org) (orgs_of ms) ≡ true) ms
unfolding orgs_of
listed [] = tt
listed (m ∷ ms) = (ground arith, listed_later m ms ms (listed ms))

module _ (live : Plan.Live) (plans : ℕ → Option Plan) (ms : List Monitor) where
  has_id-covered :
      (id org : ℕ) → has_id id (covered live plans ms org) ≡ true → any (is_of org id) ms ≡ true
  unfolding covered sort_by_age has_id
  has_id-covered id org h =
      sym (any-filter (λ m. m.id == id) (λ m. m.org == org) ms)
      ∙ sym (any-sort_by (λ m. m.created_at) (λ m. m.id == id) (by_org org ms))
      ∙ any-take (λ m. m.id == id) (limit_of live plans org) (sort_by_age (by_org org ms)) h

  covered_elsewhere :
      (m : Monitor)
      → ((org : ℕ) → any (is_of org m.id) ms ≡ (m.org == org))
      → (org : ℕ)
      → has_id m.id (covered live plans ms org)
        ≡ ((org == m.org) && has_id m.id (covered live plans ms m.org))
  covered_elsewhere m h org = elim (Bool-cases (org == m.org)) [
    | inl same ↦
        (let e : org ≡ m.org = ground arith in
          ground (arith, ap (λ o. has_id m.id (covered live plans ms o)) e))
    | inr different ↦ ground (arith, has_id-covered m.id org, h org)
  ]

  allowed :
      (m : Monitor)
      → ((org : ℕ) → any (is_of org m.id) ms ≡ (m.org == org))
      → any (λ o. o == m.org) (orgs_of ms) ≡ true
      → is_allowed live plans ms (orgs_of ms) m.id ≡ has_id m.id (covered live plans ms m.org)
  unfolding is_allowed
  allowed m h e =
      let c = has_id m.id (covered live plans ms m.org) in
      any-cong (λ o. has_id m.id (covered live plans ms o)) (λ o. c && (o == m.org)) (orgs_of ms)
        (λ o. ground (arith, covered_elsewhere m h o))
      ∙ any-factor c (λ o. o == m.org) (orgs_of ms)
      ∙ ground (arith, e)

  allowed-All :
      (ns : List Monitor)
      → All (λ m. (org : ℕ) → any (is_of org m.id) ms ≡ (m.org == org)) ns
      → All (λ m. any (λ o. o == m.org) (orgs_of ms) ≡ true) ns
      → All
          (λ m.
            is_allowed live plans ms (orgs_of ms) m.id ≡ has_id m.id (covered live plans ms m.org))
          ns
  allowed-All [] hs es = tt
  allowed-All (m ∷ ns) (h, hs) (e, es) = (allowed m h e, allowed-All ns hs es)

  by_org-filter :
      (org : ℕ) (p : Monitor → Bool) (ns : List Monitor)
      → All (λ m. p m ≡ has_id m.id (covered live plans ms m.org)) ns
      → by_org org (filter p ns)
        ≡ filter (λ m. has_id m.id (covered live plans ms org)) (by_org org ns)
  by_org-filter org p [] hs = refl
  by_org-filter org p (m ∷ ns) (h, hs) = elim (Bool-cases (m.org == org)) [
    | inl same ↦
        (let e : m.org ≡ org = ground arith in
          ground (
            arith,
            h,
            ap (λ o. has_id m.id (covered live plans ms o)) e,
            by_org-filter org p ns hs,
          ))
    | inr different ↦ ground (arith, by_org-filter org p ns hs)
  ]

  -- The monitors that are probed for an organization are the oldest of its enabled monitors, as many as its
  -- plan covers, where no two monitors have the same id.
  pub cap_to_plan-oldest :
      (org : ℕ)
      → distinct_ids ms ≡ true
      → sort_by_age (by_org org (cap_to_plan live plans ms))
        ≡ take (limit_of live plans org) (sort_by_age (by_org org ms))
  unfolding cap_to_plan sort_by_age covered
  cap_to_plan-oldest org h =
      let age : Monitor → ℕ = λ m. m.created_at in
      let p : Monitor → Bool = λ m. has_id m.id (covered live plans ms org) in
      ap (sort_by age) (
        by_org-filter org (λ m. is_allowed live plans ms (orgs_of ms) m.id) ms
          (allowed-All ms (owned ms h) (listed ms)))
      ∙ sym (filter-sort_by age p (by_org org ms))
      ∙ filter-take (limit_of live plans org) (sort_by age (by_org org ms))
          (distinct_ids-sort_by age (by_org org ms) (distinct_ids-filter (λ m. m.org == org) ms h))
