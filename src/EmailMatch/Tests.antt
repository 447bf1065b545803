-- ===== src/EmailMatch/Tests.antt =====
-- Runs of the allowlist, and its laws at concrete inputs.
use beaconpulse.Prelude.{◌≡◌, refl, true, false, List, [], ◌∷◌}
use beaconpulse.Text.{
  Text, codes, text_eq, to_lower, trim_space, trim, drop_while, has_prefix, has_suffix,
  contains_byte, after_last,
}
use beaconpulse.EmailMatch.{normalize, match, match_any, match_pattern, domain_of}

allowlist : Unit {0}
unfolding match match_any match_pattern domain_of normalize text_eq to_lower trim_space trim
    drop_while has_prefix has_suffix contains_byte after_last
allowlist = tt

abbrev patterns : List Text
patterns = codes " Ann@Example.com " ∷ codes "workstation.co.uk" ∷ codes "  " ∷ []

admitted :
    (match patterns (codes "ann@example.com") ≡ true)
    × (match patterns (codes "me@Workstation.co.uk") ≡ true)
    × (match patterns (codes "me@team.workstation.co.uk") ≡ true)
    × (match patterns (codes "me@notworkstation.co.uk") ≡ false)
    × (match patterns (codes "bob@example.com") ≡ false)
    × (match patterns (codes " ") ≡ false)
unfolding allowlist
admitted = (refl, refl, refl, refl, refl, refl)
