-- ===== src/Text.antt =====
-- Go strings as lists of bytes, with the functions of package strings that the program calls.
-- Case mapping and white space are those of ASCII; other bytes are left as they are.
pub mod Laws
pub mod Trim
pub mod Decimal
use beaconpulse.Prelude.{
  filter, length, ltb, ℕ, ◌+◌, ◌-◌, code, String, Bool, true, false, ◌&&◌, ◌||◌, Option, none, some,
  List, [], ◌∷◌, map, reverse, leb, ◌==◌, if◌then◌else◌,
}

abbrev pub Text : Type 0
Text = List ℕ

-- The bytes of an ASCII literal.
abbrev pub codes : String → Text
codes String.[] = []
codes (String.◌∷◌ c s) = code c ∷ codes s

unfoldable pub text_eq : Text → Text → Bool
text_eq [] [] = true
text_eq (a ∷ s) (b ∷ t) = a == b && text_eq s t
text_eq _ _ = false

abbrev pub is_empty : Text → Bool
is_empty [] = true
is_empty (_ ∷ _) = false

abbrev lower_byte : ℕ → ℕ
lower_byte c = if leb b'A' c && leb c b'Z' then c + 32 else c

abbrev upper_byte : ℕ → ℕ
upper_byte c = if leb b'a' c && leb c b'z' then c - 32 else c

unfoldable pub to_lower : Text → Text
to_lower s = map lower_byte s

unfoldable pub to_upper : Text → Text
to_upper s = map upper_byte s

-- strings.EqualFold
unfoldable pub equal_fold : Text → Text → Bool
unfolding to_lower text_eq
equal_fold s t = text_eq (to_lower s) (to_lower t)

abbrev pub is_space : ℕ → Bool
is_space c = c == 32 || (leb 9 c && leb c 13)

unfoldable pub drop_while : (ℕ → Bool) → Text → Text
drop_while p [] = []
drop_while p (c ∷ s) = let rest = drop_while p s in if p c then rest else c ∷ s

-- The cutset of strings.Trim as a test.
unfoldable pub trim : (ℕ → Bool) → Text → Text
unfolding drop_while
trim p s = reverse (drop_while p (reverse (drop_while p s)))

unfoldable pub trim_space : Text → Text
unfolding trim
trim_space s = trim is_space s

unfoldable pub has_prefix : Text → Text → Bool
has_prefix s [] = true
has_prefix [] (_ ∷ _) = false
has_prefix (a ∷ s) (b ∷ p) = a == b && has_prefix s p

unfoldable pub has_suffix : Text → Text → Bool
unfolding has_prefix
has_suffix s p = has_prefix (reverse s) (reverse p)

unfoldable pub contains_byte : Text → ℕ → Bool
contains_byte [] b = false
contains_byte (c ∷ s) b = c == b || contains_byte s b

-- strings.Contains
unfoldable pub contains : Text → Text → Bool
unfolding has_prefix
contains [] p = is_empty p
contains (c ∷ s) p = has_prefix (c ∷ s) p || contains s p

-- `s[i+1:]` for `i := strings.LastIndex(s, b)`, if there is one.
unfoldable pub after_last : ℕ → Text → Option Text
after_last b [] = none
after_last b (c ∷ s) = elim (after_last b s) [
  | some t ↦ some t
  | none ↦ if c == b then some s else none
]

-- strings.Split by one byte: always at least one part.
unfoldable pub split : ℕ → Text → List Text
split b [] = [] ∷ []
split b (c ∷ s) = let rest = split b s in if c == b then [] ∷ rest else push c rest
  where
    push : ℕ → List Text → List Text
    push c [] = (c ∷ []) ∷ []
    push c (p ∷ ps) = (c ∷ p) ∷ ps

-- length() of the database counts the characters of a text in UTF-8.
abbrev starts_character : ℕ → Bool
starts_character c = ltb c 128 || leb 192 c

unfoldable pub characters : Text → ℕ
characters s = length (filter starts_character s)

-- `length(s) BETWEEN 1 AND n`
abbrev pub has_length : ℕ → Text → Bool
has_length n s = leb 1 (characters s) && leb (characters s) n
