-- ===== src/Monitor/Validation/Repositories.antt =====
-- The target of a workflow monitor.
use beaconpulse.Prelude.{
  append_assoc, all, ℕ, ◌≡◌, ◌∙◌, ap, refl, Bool, true, false, not, List, [], ◌∷◌, ◌++◌, arith,
}
use beaconpulse.Text.{Text, codes, is_empty, contains_byte, split}
use beaconpulse.World.{ok}
use beaconpulse.Monitor.{Settings}
use beaconpulse.Monitor.Validation.{validate_github_actions, owner_and_name, repository_path}

-- No part of a split holds the separator.
abbrev has_none : ℕ → List Text → Bool
has_none b ps = all (λ p. not (contains_byte p b)) ps

split-has_none : (b : ℕ) (s : Text) → has_none b (split b s) ≡ true
unfolding split contains_byte
split-has_none b [] = refl
split-has_none b (c ∷ s) = ground (arith, split-has_none b s)

split-cut :
    (b : ℕ) (p q : Text) → contains_byte p b ≡ false → split b (p ++ (b ∷ q)) ≡ p ∷ split b q
unfolding split contains_byte
split-cut b [] q h = ground arith
split-cut b (c ∷ p) q h = ground (arith, split-cut b p q (ground arith))

split-single : (b : ℕ) (p : Text) → contains_byte p b ≡ false → split b p ≡ p ∷ []
unfolding split contains_byte
split-single b [] h = refl
split-single b (c ∷ p) h = ground (arith, split-single b p (ground arith))

-- A target of the form owner/name, with no further part.
pub record IsRepository (target : Text) : Type 0 where
  pub owner : Text
  pub name : Text
  pub owned : is_empty owner ≡ false
  pub named : is_empty name ≡ false
  pub spelled : target ≡ owner ++ codes "/" ++ name
  pub parts : split 47 target ≡ owner ∷ name ∷ []

owner_and_name-IsRepository :
    (ps : List Text) (s : Settings) {t' : Text} {s' : Settings}
    → has_none 47 ps ≡ true
    → owner_and_name ps s ≡ ok (t', s')
    → IsRepository t'
owner_and_name-IsRepository [] s clean h = ground arith
owner_and_name-IsRepository (p ∷ []) s clean h = ground arith
owner_and_name-IsRepository (owner ∷ name ∷ rest) s {t' = t'} clean h =
    let spelled : t' ≡ owner ++ codes "/" ++ name = ground arith in
    record {
      owner = owner;
      name = name;
      owned = ground arith;
      named = ground arith;
      spelled = spelled;
      parts =
          ap (split 47) spelled
          ∙ ap (split 47) (append_assoc owner (codes "/") name)
          ∙ split-cut 47 owner name (ground arith)
          ∙ ap (λ l. owner ∷ l) (split-single 47 name (ground arith));
    }

-- Whatever is pasted, an accepted target is stored as owner/name, both nonempty, and splits into exactly
-- those two parts: no rest of a URL's path survives.
validate_github_actions-IsRepository :
    (target : Text) (s : Settings) {t' : Text} {s' : Settings}
    → validate_github_actions target s ≡ ok (t', s')
    → IsRepository t'
unfolding validate_github_actions
validate_github_actions-IsRepository target s {t' = t'} {s' = s'} h =
    owner_and_name-IsRepository (split 47 (repository_path target)) s {t' = t'} {s' = s'}
      (split-has_none 47 (repository_path target)) h
