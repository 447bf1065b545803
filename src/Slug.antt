-- ===== src/Slug.antt =====
-- Slugs of names: backend/internal/platform/slug/slug.go.
pub mod Laws
mod Tests
use beaconpulse.Prelude.{
  ℕ, Bool, true, false, not, ◌&&◌, ◌||◌, [], ◌∷◌, ◌==◌, leb, ltb, length, take, if◌then◌else◌,
}
use beaconpulse.Text.{Text, is_empty, to_lower, trim, trim_space}

-- A letter or digit of ASCII.
abbrev pub is_word : ℕ → Bool
is_word c = leb 48 c && leb c 57 || leb 65 c && leb c 90 || leb 97 c && leb c 122

abbrev pub hyphen : ℕ
hyphen = 45

-- The loop: whether the last byte written is a hyphen, and whether any was written.
unfoldable pub walk : Bool → Bool → Text → Text
walk after_hyphen any [] = []
walk after_hyphen any (c ∷ s) =
    let dash = not (is_word c) && not after_hyphen && any in
    let rest = walk (not (is_word c) && (after_hyphen || dash)) (any || is_word c) s in
    if is_word c then c ∷ rest else if dash then hyphen ∷ rest else rest

abbrev is_hyphen : ℕ → Bool
is_hyphen c = c == hyphen

unfoldable pub shortened : Text → Text
shortened s = if ltb 63 (length s) then trim (λ c. c == hyphen) (take 63 s) else s

-- Make
unfoldable pub make : Text → Text → Text
make s fallback =
    let out = shortened (trim (λ c. c == hyphen) (walk false false (to_lower (trim_space s)))) in
    if is_empty out then fallback else out
