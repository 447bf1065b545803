-- ===== src/Text/Trim.antt =====
-- Trimming is idempotent and commutes with lowering the case.
use mathlib.Core.List.{reverse-append, reverse_aux, reverse-reverse}
use beaconpulse.Prelude.{
  ℕ, ◌≡◌, refl, sym, ◌∙◌, ap, inl, inr, Bool, [], ◌∷◌, ◌++◌, map, reverse, arith, Bool-cases,
  length, ◌≤◌, ◌≢◌,
}
use beaconpulse.Text.{Text, lower_byte, to_lower, is_space, drop_while, trim, trim_space}

module _ (p : ℕ → Bool) where
  drop_while_idem : (s : Text) → drop_while p (drop_while p s) ≡ drop_while p s
  unfolding drop_while
  drop_while_idem [] = refl
  drop_while_idem (c ∷ s) = elim (Bool-cases (p c)) [
    | inl e ↦ rw e (drop_while_idem s)
    | inr e ↦ rw (e, e)
  ]

  -- What is dropped is a prefix.
  drop_while-prefix : (s : Text) → (q : Text) × (s ≡ q ++ drop_while p s)
  unfolding drop_while
  drop_while-prefix [] = ([], refl)
  drop_while-prefix (c ∷ s) = elim (Bool-cases (p c)) [
    | inl e ↦ let (q, h) = drop_while-prefix s in (c ∷ q, rw e (ap (λ t. c ∷ t) h))
    | inr e ↦ ([], rw e)
  ]

  length-drop_while : (s : Text) → length (drop_while p s) ≤ length s
  unfolding drop_while
  length-drop_while [] = omega arith
  length-drop_while (c ∷ s) = ground (arith, length-drop_while s)

  drop_while-ne-cons : (c : ℕ) (s : Text) → drop_while p s ≢ c ∷ s
  drop_while-ne-cons c s h = absurd (omega (arith, ap length h, length-drop_while s))

  -- A prefix of a text that starts outside the cutset starts outside it too.
  drop_while_of_prefix : (v q : Text) → drop_while p (v ++ q) ≡ v ++ q → drop_while p v ≡ v
  unfolding drop_while
  drop_while_of_prefix [] q h = refl
  drop_while_of_prefix (c ∷ v) q h = elim (Bool-cases (p c)) [
    | inl e ↦ absurd (drop_while-ne-cons c (v ++ q) (rw e at h))
    | inr e ↦ rw e
  ]

  -- A trimmed text starts outside the cutset.
  pub drop_while-trim : (s : Text) → drop_while p (trim p s) ≡ trim p s
  unfolding trim
  drop_while-trim s =
      let u = drop_while p s in
      let d = drop_while p (reverse u) in
      let (q, h) = drop_while-prefix (reverse u) in
      let whole : u ≡ reverse d ++ reverse q =
        sym (reverse-reverse u) ∙ ap reverse h ∙ reverse-append q d in
      drop_while_of_prefix (reverse d) (reverse q) (rw whole at (drop_while_idem s))

  pub trim_idem : (s : Text) → trim p (trim p s) ≡ trim p s
  unfolding trim
  trim_idem s =
      let d = drop_while p (reverse (drop_while p s)) in
      rw (drop_while-trim s, reverse-reverse d)
        (ap reverse (drop_while_idem (reverse (drop_while p s))))

-- Lowering the case changes no white space.
is_space-lower_byte : (c : ℕ) → is_space (lower_byte c) ≡ is_space c
is_space-lower_byte c = ground arith

drop_while-map :
    (s : Text) → drop_while is_space (map lower_byte s) ≡ map lower_byte (drop_while is_space s)
unfolding drop_while
drop_while-map [] = refl
drop_while-map (c ∷ s) = elim (Bool-cases (is_space c)) [
  | inl e ↦ rw (is_space-lower_byte c, e) (drop_while-map s)
  | inr e ↦ rw (is_space-lower_byte c, e)
]

map-reverse_aux :
    (s t : Text)
    → map lower_byte (reverse_aux s t) ≡ reverse_aux (map lower_byte s) (map lower_byte t)
map-reverse_aux [] t = refl
map-reverse_aux (c ∷ s) t = map-reverse_aux s (c ∷ t)

map-reverse : (s : Text) → map lower_byte (reverse s) ≡ reverse (map lower_byte s)
map-reverse s = map-reverse_aux s []

pub trim_space-to_lower : (s : Text) → trim_space (to_lower s) ≡ to_lower (trim_space s)
unfolding trim_space to_lower
trim_space-to_lower s = rw (drop_while-map, ← map-reverse, drop_while-map, ← map-reverse)

pub trim_space_idem : (s : Text) → trim_space (trim_space s) ≡ trim_space s
unfolding trim_space
trim_space_idem s = trim_idem is_space s
