-- ===== src/Projects/Slugs.antt =====
-- The slug of a new project: free, and within the database's constraint whatever the name.
pub mod Allocation
use beaconpulse.World.Rules.{bind-ok}
use beaconpulse.Projects.Store.{has_slug, slug_exists}
use beaconpulse.Projects.Service.{allocate, unique_slug, next_slug}
use beaconpulse.Text.{codes, is_empty, drop_while, Text, trim}
use mathlib.Core.List.{reverse_aux}
use mathlib.Core.Path.{subst}
use beaconpulse.Prelude.{
  find, List, Option, any, sym, ltb, reverse, Bool-cases, take, arith, Bool, all, length, ℕ, ◌∙◌,
  ◌≡◌, ◌≢◌, ◌+◌, ◌-◌, ◌≤◌, ◌++◌, zero, suc, refl, ap, none, some, [], ◌∷◌, inl, inr, ◌⊎◌, true,
  false, ◌==◌, ◌&&◌, not, ◌||◌, if◌then◌else◌,
}
use beaconpulse.World.{new_error, Result, db, M, World, ok, err, ◌>>=◌, ◌>>◌, conflict}
use beaconpulse.Monitor.Store.{Row, Tables}
use beaconpulse.Projects.{Project, Actor}
use beaconpulse.Slug.{make, hyphen}
use beaconpulse.Slug.Laws.{
  length-take, length-trim, all-take, make-is_slug, trim-is_slug, leb_of, starts_well, is_slug,
  is_slug_byte,
}

module _ (q : ℕ → Bool) where
  all-of_reverse_aux :
      (s t : Text) → all q (reverse_aux s t) ≡ true → (all q s ≡ true) × (all q t ≡ true)
  all-of_reverse_aux [] t h = (refl, h)
  all-of_reverse_aux (c ∷ s) t h =
      let (hs, ht) = all-of_reverse_aux s (c ∷ t) h in (ground arith, ground arith)

  all-of_drop_while : (s : Text) → is_empty (drop_while q s) ≡ true → all q s ≡ true
  unfolding drop_while
  all-of_drop_while [] h = refl
  all-of_drop_while (c ∷ s) h = ground (arith, all-of_drop_while s)

  all-append : (s t : Text) → all q s ≡ true → all q t ≡ true → all q (s ++ t) ≡ true
  all-append [] t h h' = h'
  all-append (c ∷ s) t h h' = ground (arith, all-append s t)

abbrev is_hyphen : ℕ → Bool
is_hyphen c = c == hyphen

is_empty-reverse_aux : (s t : Text) → is_empty (reverse_aux s t) ≡ (is_empty s && is_empty t)
is_empty-reverse_aux [] t = refl
is_empty-reverse_aux (c ∷ s) t = ground (arith, is_empty-reverse_aux s (c ∷ t))

-- Trimming leaves something of a text that starts with another byte.
trim-starts : (s : Text) → starts_well s ≡ true → is_empty (trim is_hyphen s) ≡ false
unfolding trim
trim-starts [] h = ground arith
trim-starts (c ∷ s) h =
    let u = drop_while is_hyphen (c ∷ s) in
    let whole : u ≡ c ∷ s = ground arith in
    elim (Bool-cases (is_empty (drop_while is_hyphen (reverse u)))) [
      | inl e ↦
          let (hyphens, _) =
            all-of_reverse_aux is_hyphen u [] (all-of_drop_while is_hyphen (reverse u) e) in
          ground (arith, ap (all is_hyphen) (sym whole) ∙ hyphens)
      | inr e ↦ ground (arith, is_empty-reverse_aux (drop_while is_hyphen (reverse u)) [])
    ]

length-append : (s t : Text) → length (s ++ t) ≡ length s + length t
length-append [] t = omega arith
length-append (c ∷ s) t = omega (arith, length-append s t)

-- A suffix as the service draws it: six bytes of a slug.
pub record IsSuffix (suffix : Text) : Type 0 where
  pub bytes : all is_slug_byte suffix ≡ true
  pub size : length suffix ≡ 6

starts-append : (s t : Text) → starts_well s ≡ true → starts_well (s ++ t) ≡ true
starts-append [] t h = ground arith
starts-append (c ∷ s) t h = h

-- A slug of at most 56 bytes, a hyphen and a suffix.
suffixed-is_slug :
    (base suffix : Text)
    → IsSuffix suffix
    → is_slug base ≡ true
    → length base ≤ 56
    → is_slug (base ++ (hyphen ∷ suffix)) ≡ true
unfolding is_slug
suffixed-is_slug base suffix good h short = ground (
  arith,
  starts-append base (hyphen ∷ suffix) (ground arith),
  all-append is_slug_byte base (hyphen ∷ suffix) (ground arith) (ground (arith, good.bytes)),
  leb_of (length (base ++ (hyphen ∷ suffix))) 63
      (omega (arith, length-append base (hyphen ∷ suffix), good.size, short)),
)

starts-take : (s : Text) → starts_well s ≡ true → starts_well (take 56 s) ≡ true
starts-take [] h = ground arith
starts-take (c ∷ s) h = h

shorter-is_slug :
    (base : Text)
    → is_slug base ≡ true
    → (is_slug (trim is_hyphen (take 56 base)) ≡ true)
      × (length (trim is_hyphen (take 56 base)) ≤ 56)
unfolding is_slug
shorter-is_slug base h =
    let cut = take 56 base in
    (
      trim-is_slug cut (all-take is_slug_byte 56 base (ground arith))
          (trim-starts cut (starts-take base (ground arith)))
          (leb_of (length (trim is_hyphen cut)) 63
            (omega (arith, length-trim is_hyphen cut, length-take 56 base))),
      omega (arith, length-trim is_hyphen cut, length-take 56 base),
    )

pub next_slug-is_slug :
    (base suffix : Text)
    → IsSuffix suffix
    → is_slug base ≡ true
    → is_slug (next_slug base suffix) ≡ true
unfolding next_slug
next_slug-is_slug base suffix good h = elim (Bool-cases (ltb 56 (length base))) [
  | inl long ↦
      let (fine, fits) = shorter-is_slug base h in
      ground
        (arith, good.size, suffixed-is_slug (trim is_hyphen (take 56 base)) suffix good fine fits)
  | inr short ↦ ground (arith, good.size, suffixed-is_slug base suffix good h (ground arith))
]
