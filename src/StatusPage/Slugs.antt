-- ===== src/StatusPage/Slugs.antt =====
-- The public namespace of slugs: no two organizations are served at one address.
use beaconpulse.Text.{Text, is_empty, text_eq}
use beaconpulse.Prelude.{
  find-holds, or_zero, Bool-cases, find, ℕ, ◌≡◌, refl, ap, ◌&&◌, ◌||◌, not, Bool, true, false,
  Option, none, some, List, [], ◌∷◌, ◌==◌, if◌then◌else◌, arith, All, any, inl, inr,
}
use beaconpulse.StatusPage.Settings.{
  edit_orgs, update_tx, nullif, same_page_slug, is_available, written, is_live, uses_slug, OrgRow,
  Tables, Settings,
}
use mathlib.Core.Path.{subst}
use beaconpulse.World.{Result}

abbrev pub uses_page : Option Text → OrgRow → Bool
uses_page none p = false
uses_page (some c) p = uses_slug c p

-- A live organization has a slug that another live one uses for its name or its page.
unfoldable pub clashes : OrgRow → OrgRow → Bool
clashes o p =
    not o.deleted
    && not p.deleted
    && not (o.id == p.id)
    && (uses_slug o.slug p || uses_page o.status_page_slug p)

abbrev pub IsApart : Tables → Type 0
IsApart t = All (λ o. All (λ p. clashes o p ≡ false) t.orgs) t.orgs

text_eq_sym : (s t : Text) → text_eq s t ≡ text_eq t s
unfolding text_eq
text_eq_sym [] [] = refl
text_eq_sym [] (b ∷ t) = refl
text_eq_sym (a ∷ s) [] = refl
text_eq_sym (a ∷ s) (b ∷ t) = ground (arith, text_eq_sym s t)

module _ {A : Type 0} where
  All-any : (q : A → Bool) (xs : List A) → any q xs ≡ false → All (λ x. q x ≡ false) xs
  All-any q [] h = tt
  All-any q (x ∷ xs) h = (ground arith, All-any q xs (ground arith))

  any-All :
      (q : A → Bool) (P : A → Type 0) (xs : List A)
      → ((x : A) → P x → q x ≡ false)
      → All P xs
      → any q xs ≡ false
  any-All q P [] k h = refl
  any-All q P (x ∷ xs) k (p, h) = ground (arith, k x p, any-All q P xs k h)

  All-find :
      (P : A → Type 0) (q : A → Bool) (xs : List A) {a : A} → All P xs → find q xs ≡ some a → P a
  All-find P q [] h e = ground arith
  All-find P q (x ∷ xs) (p, h) e = elim (Bool-cases (q x)) [
    | inl hit ↦ (let same : x ≡ _ = ground arith in subst P same p)
    | inr miss ↦ All-find P q xs h (ground arith)
  ]

module _ (org : ℕ) where
  -- A slug is not used by another live organization.
  unfoldable is_foreign : Text → OrgRow → Bool
  is_foreign c p = not p.deleted && not (p.id == org) && uses_slug c p

  abbrev pub is_claimable : Text → List OrgRow → Bool
  is_claimable c os = is_empty c || is_available org c os

  module _ (s : Settings) where
    abbrev edit_if : Bool → OrgRow → OrgRow
    edit_if true o = written s o
    edit_if false o = o

    abbrev IsFree : OrgRow → Type 0
    IsFree p = (is_empty s.custom_slug || not (is_foreign s.custom_slug p)) ≡ true

    own_page :
        (p : OrgRow)
        → uses_page (nullif s.custom_slug) p
          ≡ (not (is_empty s.custom_slug) && uses_slug s.custom_slug p)
    own_page p = go (is_empty s.custom_slug)
      where
        go :
            (e : Bool)
            → uses_page (if e then none else some s.custom_slug) p
              ≡ (not e && uses_slug s.custom_slug p)
        go true = refl
        go false = refl

    same_page :
        (x : Text)
        → same_page_slug (some x) (nullif s.custom_slug)
          ≡ (not (is_empty s.custom_slug) && text_eq x s.custom_slug)
    same_page x = go (is_empty s.custom_slug)
      where
        go :
            (e : Bool)
            → same_page_slug (some x) (if e then none else some s.custom_slug)
              ≡ (not e && text_eq x s.custom_slug)
        go true = refl
        go false = refl

    other_page :
        (d : Option Text) (p : OrgRow)
        → uses_page d p ≡ false
        → (is_empty s.custom_slug || not (same_page_slug (some s.custom_slug) d)) ≡ true
        → uses_page d (written s p) ≡ false
    other_page none p h f = refl
    other_page (some d) p h f = ground (arith, same_page d, text_eq_sym d s.custom_slug)

    edited-clashes :
        (b c : Bool) (o p : OrgRow)
        → is_live org o ≡ b
        → is_live org p ≡ c
        → clashes o p ≡ false
        → IsFree o
        → IsFree p
        → clashes (edit_if b o) (edit_if c p) ≡ false
    unfolding clashes is_foreign
    edited-clashes true true o p l m h f g = ground arith
    edited-clashes true false o p l m h f g = ground (arith, own_page p)
    edited-clashes false true o p l m h f g =
        ground (
          arith,
          same_page o.slug,
          text_eq_sym o.slug s.custom_slug,
          other_page o.status_page_slug p,
        )
    edited-clashes false false o p l m h f g = h

  edit-All :
      (s : Settings) (o : OrgRow) (b : Bool) (os : List OrgRow)
      → is_live org o ≡ b
      → IsFree s o
      → All (IsFree s) os
      → All (λ p. clashes o p ≡ false) os
      → All (λ p. clashes (edit_if s b o) p ≡ false) (edit_orgs (is_live org) (written s) os)
  unfolding edit_orgs
  edit-All s o b [] l f fs hs = tt
  edit-All s o b (p ∷ os) l f (g, fs) (h, hs) =
      (go (is_live org p) refl, edit-All s o b os l f fs hs)
    where
      go :
          (c : Bool)
          → is_live org p ≡ c
          → clashes (edit_if s b o) (if c then written s p else p) ≡ false
      go true m = edited-clashes s b true o p l m h f g
      go false m = edited-clashes s b false o p l m h f g

  edit-All-All :
      (s : Settings) (ns os : List OrgRow)
      → All (IsFree s) ns
      → All (IsFree s) os
      → All (λ o. All (λ p. clashes o p ≡ false) os) ns
      → All
          (λ o. All (λ p. clashes o p ≡ false) (edit_orgs (is_live org) (written s) os))
          (edit_orgs (is_live org) (written s) ns)
  unfolding edit_orgs
  edit-All-All s [] os fs gs hs = tt
  edit-All-All s (o ∷ ns) os (f, fs) gs (h, hs) =
      (go (is_live org o) refl, edit-All-All s ns os fs gs hs)
    where
      go :
          (b : Bool)
          → is_live org o ≡ b
          → All
              (λ p. clashes (if b then written s o else o) p ≡ false)
              (edit_orgs (is_live org) (written s) os)
      go true l = edit-All s o true os l f gs h
      go false l = edit-All s o false os l f gs h

  IsFree-All :
      (s : Settings) (os : List OrgRow) → is_claimable s.custom_slug os ≡ true → All (IsFree s) os
  unfolding is_available is_foreign
  IsFree-All s [] h = tt
  IsFree-All s (o ∷ os) h = (ground arith, IsFree-All s os (ground arith))

  unfoldable IsKept : Result (Unit {0}) × Tables → Type 0
  IsKept r = IsApart r.1

  IsKept-if :
      (b : Bool) (x y : Result (Unit {0}) × Tables)
      → IsKept x
      → IsKept y
      → IsKept (if b then x else y)
  IsKept-if true x y h k = h
  IsKept-if false x y h k = k

  kept : (r : Result (Unit {0})) (t : Tables) → IsApart t → IsKept (r, t)
  unfolding IsKept
  kept r t h = h

  update_tx-IsKept :
      (s : Settings) (t : Tables)
      → is_claimable s.custom_slug t.orgs ≡ true
      → IsApart t
      → IsKept (update_tx org s t)
  unfolding update_tx
  update_tx-IsKept s t c h =
      let free = IsFree-All s t.orgs c in
      let after = edit-All-All s t.orgs t.orgs free free h in search (IsKept-if, kept)

  pub update_tx-IsApart :
      (s : Settings) (t : Tables)
      → is_claimable s.custom_slug t.orgs ≡ true
      → IsApart t
      → IsApart (update_tx org s t).1
  unfolding IsKept
  update_tx-IsApart s t c h = update_tx-IsKept s t c h

  -- The page slug that a live organization has is its own.
  pub own_claimable :
      (o : OrgRow) (t : Tables)
      → IsApart t
      → find (is_live org) t.orgs ≡ some o
      → is_claimable (or_zero o.status_page_slug []) t.orgs ≡ true
  unfolding is_available clashes
  own_claimable o t h e =
      let live = find-holds (is_live org) t.orgs e in
      let apart = All-find (λ p. All (λ q. clashes p q ≡ false) t.orgs) (is_live org) t.orgs h e in
      go o.status_page_slug refl live apart
    where
      go :
          (d : Option Text)
          → o.status_page_slug ≡ d
          → is_live org o ≡ true
          → All (λ p. clashes o p ≡ false) t.orgs
          → is_claimable (or_zero d []) t.orgs ≡ true
      go none k live apart = refl
      go (some c) k live apart =
          let page : (p : OrgRow) → uses_page o.status_page_slug p ≡ uses_slug c p =
            λ p. ap (λ d. uses_page d p) k in
          let none_foreign =
            any-All (λ p. not p.deleted && not (p.id == org) && uses_slug c p)
              (λ p. clashes o p ≡ false) t.orgs (λ p q. ground (arith, page p)) apart in
          ground (arith, none_foreign)
