-- ===== src/ControlPlane/Sorting.antt =====
-- sort.SliceStable by a number, as insertion sort: equal keys keep their order.
use beaconpulse.Prelude.{
  ◌≡◌, refl, Bool, true, ◌&&◌, ◌||◌, List, [], ◌∷◌, ℕ, leb, all, any, filter, if◌then◌else◌, arith,
  ◌∙◌, ap,
}

module _ {A : Type 0} (key : A → ℕ) where
  unfoldable pub insert_by : A → List A → List A
  insert_by x [] = x ∷ []
  insert_by x (y ∷ ys) =
      let rest = insert_by x ys in if leb (key x) (key y) then x ∷ y ∷ ys else y ∷ rest

  unfoldable pub sort_by : List A → List A
  sort_by [] = []
  sort_by (x ∷ xs) = insert_by x (sort_by xs)

  abbrev is_least : ℕ → List A → Bool
  is_least k xs = all (λ y. leb k (key y)) xs

  abbrev pub is_sorted : List A → Bool
  is_sorted [] = true
  is_sorted (x ∷ xs) = is_least (key x) xs && is_sorted xs

  is_least-insert_by :
      (k : ℕ) (x : A) (ys : List A) → is_least k (insert_by x ys) ≡ (leb k (key x) && is_least k ys)
  unfolding insert_by
  is_least-insert_by k x [] = refl
  is_least-insert_by k x (y ∷ ys) = ground (arith, is_least-insert_by k x ys)

  is_least_weaken :
      (k n : ℕ) (ys : List A) → leb k n ≡ true → is_least n ys ≡ true → is_least k ys ≡ true
  is_least_weaken k n [] h e = refl
  is_least_weaken k n (y ∷ ys) h e = ground (arith, is_least_weaken k n ys)

  is_sorted-insert_by :
      (x : A) (ys : List A) → is_sorted ys ≡ true → is_sorted (insert_by x ys) ≡ true
  unfolding insert_by
  is_sorted-insert_by x [] h = refl
  is_sorted-insert_by x (y ∷ ys) h = ground (
    arith,
    is_sorted-insert_by x ys,
    is_least-insert_by (key y) x ys,
    is_least_weaken (key x) (key y) ys,
  )

  is_sorted-sort_by : (xs : List A) → is_sorted (sort_by xs) ≡ true
  unfolding sort_by
  is_sorted-sort_by [] = refl
  is_sorted-sort_by (x ∷ xs) = is_sorted-insert_by x (sort_by xs) (is_sorted-sort_by xs)

  pub any-insert_by :
      (p : A → Bool) (x : A) (ys : List A) → any p (insert_by x ys) ≡ (p x || any p ys)
  unfolding insert_by
  any-insert_by p x [] = refl
  any-insert_by p x (y ∷ ys) = ground (arith, any-insert_by p x ys)

  pub any-sort_by : (p : A → Bool) (xs : List A) → any p (sort_by xs) ≡ any p xs
  unfolding sort_by
  any-sort_by p [] = refl
  any-sort_by p (x ∷ xs) = any-insert_by p x (sort_by xs) ∙ ap (λ b. p x || b) (any-sort_by p xs)

  insert_by-least : (x : A) (ys : List A) → is_least (key x) ys ≡ true → insert_by x ys ≡ x ∷ ys
  unfolding insert_by
  insert_by-least x [] h = refl
  insert_by-least x (y ∷ ys) h = ground arith

  is_least-filter :
      (k : ℕ) (p : A → Bool) (ys : List A) → is_least k ys ≡ true → is_least k (filter p ys) ≡ true
  is_least-filter k p [] h = refl
  is_least-filter k p (y ∷ ys) h = ground (arith, is_least-filter k p ys)

  filter-insert_by :
      (p : A → Bool) (x : A) (ys : List A)
      → is_sorted ys ≡ true
      → filter p (insert_by x ys) ≡ (if p x then insert_by x (filter p ys) else filter p ys)
  unfolding insert_by
  filter-insert_by p x [] h = refl
  filter-insert_by p x (y ∷ ys) h = ground (
    arith,
    filter-insert_by p x ys,
    insert_by-least x (filter p ys),
    is_least-filter (key x) p ys,
    is_least_weaken (key x) (key y) ys,
  )

  -- Sorting commutes with a filter.
  pub filter-sort_by : (p : A → Bool) (xs : List A) → filter p (sort_by xs) ≡ sort_by (filter p xs)
  unfolding sort_by
  filter-sort_by p [] = refl
  filter-sort_by p (x ∷ xs) =
      ground (arith, filter-sort_by p xs, filter-insert_by p x (sort_by xs) (is_sorted-sort_by xs))
