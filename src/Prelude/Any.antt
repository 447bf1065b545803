-- ===== src/Prelude/Any.antt =====
-- Laws of the search for an element that passes a test.
use mathlib.Core.Path.{◌≡◌, refl, sym, ap, ◌∙◌}
use mathlib.Core.Bool.{Bool, true, false, ◌&&◌, ◌||◌}
use mathlib.Core.List.{List, [], ◌∷◌}
use native.Mathlib.Omega.{arith}
use mathlib.Core.Logic.{inl, inr}
use mathlib.Core.Option.{some}
use beaconpulse.Prelude.Tests.{Bool-cases}
use beaconpulse.Prelude.Lists.{any, find}

module _ {A : Type 0} where
  pub any-factor :
      (a : Bool) (q : A → Bool) (xs : List A) → any (λ x. a && q x) xs ≡ (a && any q xs)
  any-factor a q [] = ground arith
  any-factor a q (x ∷ xs) = ground (arith, any-factor a q xs)

  pub any-or : (p q : A → Bool) (xs : List A) → any (λ x. p x || q x) xs ≡ (any p xs || any q xs)
  any-or p q [] = refl
  any-or p q (x ∷ xs) = ground (arith, any-or p q xs)

  pub any-cong : (p q : A → Bool) (xs : List A) → ((x : A) → p x ≡ q x) → any p xs ≡ any q xs
  any-cong p q [] h = refl
  any-cong p q (x ∷ xs) h = ground (arith, any-cong p q xs h, h x)

  pub any-false : (xs : List A) → any (λ x. false) xs ≡ false
  any-false [] = refl
  any-false (x ∷ xs) = any-false xs

  pub find-holds : (p : A → Bool) (xs : List A) {a : A} → find p xs ≡ some a → p a ≡ true
  find-holds p [] e = ground arith
  find-holds p (x ∷ xs) e = elim (Bool-cases (p x)) [
    | inl hit ↦ ground arith
    | inr miss ↦ find-holds p xs (ground arith)
  ]

module _ {A B : Type 0} where
  pub any-swap :
      (f : A → B → Bool) (xs : List A) (ys : List B)
      → any (λ x. any (f x) ys) xs ≡ any (λ y. any (λ x. f x y) xs) ys
  any-swap f [] ys = sym (any-false ys)
  any-swap f (x ∷ xs) ys =
      ap (λ b. any (f x) ys || b) (any-swap f xs ys)
      ∙ sym (any-or (f x) (λ y. any (λ x'. f x' y) xs) ys)
