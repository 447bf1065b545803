-- ===== src/Slug/Tests.antt =====
-- A name made a slug.
use beaconpulse.Prelude.{◌≡◌, refl, true}
use beaconpulse.Text.{codes, to_lower, trim, trim_space}
use beaconpulse.Slug.{make, walk, shortened}
use beaconpulse.Slug.Laws.{is_slug}

made : make (codes " --My  Project! (2) ") (codes "project") ≡ codes "my-project-2"
unfolding make walk shortened to_lower trim_space trim
made = refl

fallback-is_slug : is_slug (codes "project") ≡ true
unfolding is_slug
fallback-is_slug = refl
