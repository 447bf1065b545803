-- ===== src/Projects/Slugs/Allocation.antt =====
-- The loop that allocates a slug: what it returns, and that it ends with the first free candidate.
use beaconpulse.World.Rules.{bind-ok}
use beaconpulse.Projects.Store.{has_slug, slug_exists}
use beaconpulse.Projects.Service.{allocate, unique_slug, next_slug}
use beaconpulse.Text.{codes, Text}
use mathlib.Core.Path.{subst}
use beaconpulse.Prelude.{
  find, List, Option, any, Bool-cases, arith, Bool, ℕ, ◌≡◌, zero, suc, refl, none, some, [], ◌∷◌,
  inl, inr, true, false, not,
}
use beaconpulse.World.{new_error, Result, db, World, ok, err, conflict}
use beaconpulse.Monitor.Store.{Tables}
use beaconpulse.Slug.{make}
use beaconpulse.Slug.Laws.{make-is_slug, is_slug}
use beaconpulse.Projects.Slugs.{IsSuffix, next_slug-is_slug}

project_is_slug : is_slug (codes "project") ≡ true
unfolding is_slug
project_is_slug = refl

-- No other live project of the organization has the slug.
abbrev pub is_free : ℕ → ℕ → Tables → Text → Bool
is_free org except t slug = not (any (has_slug org slug except) t.projects)

module _ (suffix : ℕ → Text) (org except : ℕ) (base : Text) where
  -- The candidates in the order in which they are tried.
  unfoldable pub candidates : ℕ → Text → List Text
  candidates zero candidate = []
  candidates (suc left) candidate = candidate ∷ candidates left (next_slug base (suffix left))

  abbrev pub outcome : Option Text → Result Text
  outcome none = err (new_error conflict "could not allocate a unique project slug")
  outcome (some slug) = ok slug

  -- While the database answers, the allocation returns the first candidate that is free, and a conflict
  -- if none of them is.
  pub allocate-first :
      (left : ℕ) (candidate : Text) (w : World Tables)
      → allocate suffix org except base left candidate (record w { faults = [] }) ≡ (
        outcome (find (is_free org except w.tables) (candidates left candidate)),
        record w { faults = [] },
      )
  unfolding allocate candidates slug_exists db
  allocate-first zero candidate w = refl
  allocate-first (suc left) candidate w =
      ground (arith, allocate-first left (next_slug base (suffix left)) w)

  slug_exists-free :
      (candidate : Text) (w : World Tables)
      → (slug_exists org candidate except w).0 ≡ ok false
      → is_free org except w.tables candidate ≡ true
  unfolding slug_exists db
  slug_exists-free candidate w h = ground arith

  tables-slug_exists :
      (candidate : Text) (w : World Tables)
      → (slug_exists org candidate except w).1.tables ≡ w.tables
  unfolding slug_exists db
  tables-slug_exists candidate w = ground arith

  allocate-free :
      ((n : ℕ) → IsSuffix (suffix n))
      → is_slug base ≡ true
      → (left : ℕ) (candidate : Text) (w : World Tables) {slug : Text} → is_slug candidate ≡ true
      → (allocate suffix org except base left candidate w).0 ≡ ok slug
      → (is_slug slug ≡ true) × (is_free org except w.tables slug ≡ true)
  unfolding allocate
  allocate-free good based zero candidate w valid h = ground arith
  allocate-free good based (suc left) candidate w {slug = slug} valid h =
      let (taken, read, rest, _) = bind-ok (slug_exists org candidate except) _ w h in
      elim (Bool-cases taken) [
        | inl e ↦
            let (fine, free) =
              allocate-free good based left (next_slug base (suffix left))
                (slug_exists org candidate except w).1 {slug = slug}
                (next_slug-is_slug base (suffix left) (good left) based) (ground arith) in
            (
              fine,
              subst (λ t. is_free org except t slug ≡ true) (tables-slug_exists candidate w) free,
            )
        | inr e ↦
            let same : candidate ≡ slug = ground arith in
            (
              subst (λ c. is_slug c ≡ true) same valid,
              subst (λ c. is_free org except w.tables c ≡ true) same
                  (slug_exists-free candidate w (ground arith)),
            )
      ]

-- A slug that is allocated satisfies the database's constraint whatever the name, and no other live
-- project of the organization has it, provided each suffix that is drawn is six bytes of a slug.
pub unique_slug-is_free :
    (suffix : ℕ → Text) (org : ℕ) (desired : Text) (except : ℕ) (w : World Tables) {slug : Text}
    → ((n : ℕ) → IsSuffix (suffix n))
    → (unique_slug suffix org desired except w).0 ≡ ok slug
    → (is_slug slug ≡ true) × (is_free org except w.tables slug ≡ true)
unfolding unique_slug
unique_slug-is_free suffix org desired except w good h =
    let based = make-is_slug desired (codes "project") project_is_slug in
    allocate-free suffix org except (make desired (codes "project")) good based 5 _ w based h
