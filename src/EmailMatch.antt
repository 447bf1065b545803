-- ===== src/EmailMatch.antt =====
-- Allowlists of addresses and domains: backend/internal/platform/emailmatch/emailmatch.go.
pub mod Laws
mod Tests
use beaconpulse.Prelude.{Bool, false, ◌&&◌, ◌||◌, not, List, [], ◌∷◌, if◌then◌else◌, or_zero}
use beaconpulse.Text.{
  Text, text_eq, is_empty, to_lower, trim_space, has_suffix, contains_byte, after_last,
}

-- `strings.ToLower(strings.TrimSpace(p))`
abbrev pub clean : Text → Text
clean p = to_lower (trim_space p)

unfoldable pub normalize : List Text → List Text
normalize [] = []
normalize (p ∷ ps) = let rest = normalize ps in if is_empty (clean p) then rest else clean p ∷ rest

-- The domain of a cleaned address, empty if it has no at sign.
unfoldable pub domain_of : Text → Text
domain_of email = or_zero (after_last b'@' email) []

-- One round of the loop of Match, for a cleaned pattern.
unfoldable pub match_pattern : Text → Text → Text → Bool
match_pattern p email domain =
    if is_empty p
    then false
    else if contains_byte p b'@'
    then text_eq p email
    else not (is_empty domain) && (text_eq domain p || has_suffix domain (b'.' ∷ p))

unfoldable pub match_any : List Text → Text → Text → Bool
match_any [] email domain = false
match_any (p ∷ ps) email domain = match_pattern (clean p) email domain || match_any ps email domain

unfoldable pub match : List Text → Text → Bool
match patterns raw =
    let email = clean raw in
    if is_empty email then false else match_any patterns email (domain_of email)
