-- ===== src/EmailMatch/Laws.antt =====
-- What an allowlist admits, and that storing it cleaned changes nothing.
use mathlib.Core.List.{reverse-cons}
use beaconpulse.Prelude.{
  ◌≡◌, refl, ◌↔◌, inl, inr, true, false, List, [], ◌∷◌, ◌++◌, arith, Bool-cases, ℕ, reverse,
}
use beaconpulse.Text.{Text, is_empty, contains_byte, has_suffix, has_prefix, text_eq}
use beaconpulse.Text.Laws.{text_eq_iff, text_eq_refl, to_lower_idem}
use beaconpulse.Text.Trim.{trim_space_idem, trim_space-to_lower}
use beaconpulse.EmailMatch.{clean, normalize, domain_of, match_pattern, match_any, match}

clean_idem : (p : Text) → clean (clean p) ≡ clean p
clean_idem p = rw (trim_space-to_lower, trim_space_idem, to_lower_idem)

match_pattern_of_empty :
    (p email domain : Text) → is_empty p ≡ true → match_pattern p email domain ≡ false
unfolding match_pattern
match_pattern_of_empty p email domain h = rw h

match_any-normalize :
    (ps : List Text) (email domain : Text)
    → match_any (normalize ps) email domain ≡ match_any ps email domain
unfolding normalize match_any
match_any-normalize [] email domain = refl
match_any-normalize (p ∷ ps) email domain = elim (Bool-cases (is_empty (clean p))) [
  | inl e ↦ rw (e, match_any-normalize ps, match_pattern_of_empty (clean p) email domain e)
  | inr e ↦ rw (e, clean_idem, match_any-normalize ps)
]

-- Matching against a stored, normalised list gives the answer of the list as it was written.
match-normalize : (ps : List Text) (raw : Text) → match (normalize ps) raw ≡ match ps raw
unfolding match
match-normalize ps raw = rw match_any-normalize

-- What one cleaned pattern admits: the address itself if it has an at sign; else the domain itself
-- or a domain below it.
pub data Admits (p email : Text) : Type 0 where
  address : contains_byte p b'@' ≡ true → p ≡ email → Admits p email
  domain : contains_byte p b'@' ≡ false → domain_of email ≡ p → Admits p email
  subdomain :
      contains_byte p b'@' ≡ false → has_suffix (domain_of email) (b'.' ∷ p) ≡ true → Admits p email

-- Some pattern of the list, cleaned, is not blank and admits the address.
pub data AdmittedBy (email : Text) : List Text → Type 0 where
  here :
      {p : Text} {ps : List Text}
      → is_empty (clean p) ≡ false
      → Admits (clean p) email
      → AdmittedBy email (p ∷ ps)
  there : {p : Text} {ps : List Text} → AdmittedBy email ps → AdmittedBy email (p ∷ ps)

is_empty-eq_true : (p : Text) → is_empty p ≡ true → p ≡ []
is_empty-eq_true [] h = refl
is_empty-eq_true (c ∷ p) h = cc

match_pattern-Admits :
    (p email : Text)
    → match_pattern p email (domain_of email) ≡ true
    → (is_empty p ≡ false) × Admits p email
unfolding match_pattern
match_pattern-Admits p email h = elim (Bool-cases (contains_byte p b'@')) [
  | inl e ↦ (ground arith, address e (ground (arith, text_eq_iff p email)))
  | inr e ↦ elim (Bool-cases (text_eq (domain_of email) p)) [
    | inl same ↦ (ground arith, domain e ((text_eq_iff (domain_of email) p).0 same))
    | inr below ↦ (ground arith, subdomain e (ground arith))
  ]
]

has_prefix-nil-append : (q : Text) (c : ℕ) → has_prefix [] (q ++ c ∷ []) ≡ false
unfolding has_prefix
has_prefix-nil-append [] c = refl
has_prefix-nil-append (_ ∷ q) c = refl

-- The empty domain is below no domain.
has_suffix-nil : (c : ℕ) (p : Text) → has_suffix [] (c ∷ p) ≡ false
unfolding has_suffix
has_suffix-nil c p = rw reverse-cons (has_prefix-nil-append (reverse p) c)

subdomain-IsEmpty : (d p : Text) → has_suffix d (b'.' ∷ p) ≡ true → is_empty d ≡ false
subdomain-IsEmpty [] p h = cc (has_suffix-nil b'.' p)
subdomain-IsEmpty (c ∷ d) p h = refl

Admits-match_pattern :
    (p email : Text)
    → is_empty p ≡ false
    → Admits p email
    → match_pattern p email (domain_of email) ≡ true
unfolding match_pattern
Admits-match_pattern p email h (address at same) = rw (h, at) ((text_eq_iff p email).1 same)
Admits-match_pattern p email h (domain at same) = rw (h, at, same, h, text_eq_refl p)
Admits-match_pattern p email h (subdomain at below) =
    ground (arith, subdomain-IsEmpty (domain_of email) p below)

match_any-AdmittedBy :
    (ps : List Text) (email : Text)
    → match_any ps email (domain_of email) ≡ true
    → AdmittedBy email ps
unfolding match_any
match_any-AdmittedBy [] email h = cc
match_any-AdmittedBy (p ∷ ps) email h =
    elim (Bool-cases (match_pattern (clean p) email (domain_of email))) [
      | inl e ↦ let (filled, admits) = match_pattern-Admits (clean p) email e in here filled admits
      | inr e ↦ there (match_any-AdmittedBy ps email (ground arith))
    ]

AdmittedBy-match_any :
    {email : Text} {ps : List Text}
    → AdmittedBy email ps
    → match_any ps email (domain_of email) ≡ true
unfolding match_any
AdmittedBy-match_any {email} (here {p = p} filled admits) =
    rw (Admits-match_pattern (clean p) email filled admits)
AdmittedBy-match_any (there rest) = ground (arith, AdmittedBy-match_any rest)

-- An address is on an allowlist exactly when, cleaned, it is not blank and some non-blank pattern of
-- the list admits it: a pattern with an at sign admits that address alone, and any other pattern
-- admits the addresses at that domain and at the domains below it.
match_iff :
    (ps : List Text) (raw : Text)
    → (match ps raw ≡ true) ↔ ((is_empty (clean raw) ≡ false) × AdmittedBy (clean raw) ps)
unfolding match
match_iff ps raw = elim (Bool-cases (is_empty (clean raw))) [
  | inl e ↦ (λ h. absurd (cc (rw e at h)), λ h. cc)
  | inr e ↦ (
    λ h. (e, match_any-AdmittedBy ps (clean raw) (rw e at h)),
    λ h. rw e (AdmittedBy-match_any h.1),
  )
]
