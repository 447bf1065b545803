-- ===== src/Auth/Names.antt =====
-- Addresses, display names and slugs of a sign-up: the helpers at the end of
-- backend/internal/domain/auth/service.go, and url.QueryEscape, with which a link carries a token.
use beaconpulse.Slug.{is_word}
use beaconpulse.Text.{codes, trim, is_empty, to_lower, trim_space, Text}
use beaconpulse.Prelude.{
  take, Option, length, Bool, ltb, ℕ, ◌+◌, ◌-◌, ◌/◌, ◌%◌, ◌==◌, ◌||◌, ◌++◌, ◌∷◌, [], none, some,
  if◌then◌else◌,
}

-- normalizeEmail
abbrev pub normalize_email : Text → Text
normalize_email e = to_lower (trim_space e)

-- `s[:i]` for `i := strings.IndexByte(s, b)`, if there is one.
unfoldable pub before_first : ℕ → Text → Option Text
before_first b [] = none
before_first b (c ∷ s) =
    let rest = before_first b s in
    if c == b then some [] else elim rest [ none ↦ none | some t ↦ some (c ∷ t) ]

-- The part before the first separator, or the whole if that part would be empty or there is none.
unfoldable pub head_part : ℕ → Text → Text
head_part b s = elim (before_first b s) [ none ↦ s | some t ↦ if is_empty t then s else t ]

-- localPart
abbrev pub local_part : Text → Text
local_part email = head_part b'@' email

-- deriveOrgName
unfoldable pub derive_org_name : Text → Text
derive_org_name name =
    let first = head_part b' ' (trim_space name) in
    if is_empty first then codes "My team" else first ++ codes "'s team"

-- truncateSlug
unfoldable pub truncate_slug : Text → ℕ → Text
truncate_slug s max =
    if ltb max 1 then s else if ltb max (length s) then trim (λ c. c == 45) (take max s) else s

-- The candidate of the next attempt of uniqueOrgSlug.
unfoldable pub next_candidate : Text → Text → Text
next_candidate base suffix = truncate_slug base (63 - length suffix - 1) ++ (45 ∷ suffix)

-- A display name, trimmed, or the local part of the address.
unfoldable pub display_name : Text → Text → Text
display_name name email =
    let clean = trim_space name in if is_empty clean then local_part email else clean

abbrev hex_digit : ℕ → ℕ
hex_digit n = if ltb n 10 then n + 48 else n + 55

-- What url.QueryEscape leaves as it is.
abbrev is_unreserved : ℕ → Bool
is_unreserved c = is_word c || c == b'-' || c == b'_' || c == b'.' || c == b'~'

abbrev escape_byte : ℕ → Text
escape_byte c =
    if is_unreserved c
    then c ∷ []
    else if c == 32
    then b'+' ∷ []
    else b'%' ∷ hex_digit (c / 16) ∷ hex_digit (c % 16) ∷ []

unfoldable pub query_escape : Text → Text
query_escape [] = []
query_escape (c ∷ s) = escape_byte c ++ query_escape s
