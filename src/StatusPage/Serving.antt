-- ===== src/StatusPage/Serving.antt =====
-- Whose monitors the lines of statusPageQuery in statuspage_repo.go show.
use mathlib.Core.List.{Mem, mem-cons_self, mem-cons_of_mem}
use mathlib.Core.Path.{subst}
use beaconpulse.Text.Laws.{text_eq_iff}
use beaconpulse.StatusPage.Slugs.{uses_page, IsApart, clashes}
use beaconpulse.Text.{text_eq, Text}
use beaconpulse.Prelude.{
  or_zero, append_nil, Bool-cases, ℕ, ◌≡◌, ◌∙◌, ◌⊎◌, refl, ap, sym, ◌&&◌, ◌||◌, not, Bool, true,
  false, Option, none, some, List, [], ◌∷◌, ◌==◌, arith, All, any, filter, inl, inr,
}
use beaconpulse.StatusPage.Settings.{same_page_slug, uses_slug, OrgRow}
use beaconpulse.StatusPage.Public.{join_all, served_at, Source, serves, page_lines, lines_of}

-- Ids are the table's primary key.
abbrev pub distinct_orgs : List OrgRow → Bool
distinct_orgs [] = true
distinct_orgs (o ∷ os) = not (any (λ p. p.id == o.id) os) && distinct_orgs os

text_eq_join : (a b c : Text) → text_eq a c ≡ true → text_eq b c ≡ true → text_eq a b ≡ true
text_eq_join a b c h k = (text_eq_iff a b).1 ((text_eq_iff a c).0 h ∙ sym ((text_eq_iff b c).0 k))

module _ (slug : Text) where
  meets :
      (c d : Option Text) (o p : OrgRow)
      → o.status_page_slug ≡ c
      → p.status_page_slug ≡ d
      → served_at c o.slug slug ≡ true
      → served_at d p.slug slug ≡ true
      → (uses_slug o.slug p || uses_page o.status_page_slug p) ≡ true
  meets none none o p e f h k = ground (arith, text_eq_join o.slug p.slug slug)
  meets none (some d) o p e f h k =
      ground (arith, text_eq_join o.slug d slug, ap (λ x. same_page_slug (some o.slug) x) f)
  meets (some c) none o p e f h k =
      ground (arith, text_eq_join c p.slug slug, ap (λ x. uses_page x p) e)
  meets (some c) (some d) o p e f h k = ground (
    arith,
    text_eq_join c d slug,
    ap (λ x. uses_page x p) e,
    ap (λ x. same_page_slug (some c) x) f,
  )

  same_org :
      (o p : OrgRow)
      → clashes o p ≡ false
      → serves slug o ≡ true
      → serves slug p ≡ true
      → (p.id == o.id) ≡ true
  unfolding clashes serves
  same_org o p h f g = ground (arith, meets o.status_page_slug p.status_page_slug o p refl refl)

  alone :
      (o : OrgRow) (ps : List OrgRow)
      → serves slug o ≡ true
      → any (λ p. p.id == o.id) ps ≡ false
      → All (λ p. clashes o p ≡ false) ps
      → filter (serves slug) ps ≡ []
  alone o [] f h a = refl
  alone o (p ∷ ps) f h (c, a) = ground (arith, same_org o p c f, alone o ps f (ground arith) a)

  fewer :
      (o : OrgRow) (ps ns : List OrgRow)
      → All (λ n. All (λ p. clashes n p ≡ false) (o ∷ ps)) ns
      → All (λ n. All (λ p. clashes n p ≡ false) ps) ns
  fewer o ps [] h = tt
  fewer o ps (n ∷ ns) ((_, a), h) = (a, fewer o ps ns h)

  served_at-eq : (c : Option Text) (own : Text) → served_at c own slug ≡ true → or_zero c own ≡ slug
  served_at-eq none own h = (text_eq_iff own slug).0 h
  served_at-eq (some c) own h = (text_eq_iff c slug).0 h

  serves-parts :
      (o : OrgRow)
      → serves slug o ≡ true
      → (o.deleted ≡ false)
        × ((o.status_page_enabled ≡ true) × (or_zero o.status_page_slug o.slug ≡ slug))
  unfolding serves
  serves-parts o h =
      (ground arith, (ground arith, served_at-eq o.status_page_slug o.slug (ground arith)))

  -- No row, or one row of the table that serves the page.
  abbrev IsOne : List OrgRow → List OrgRow → Type 0
  IsOne rows os =
      (os ≡ []) ⊎ ((o : OrgRow) × (Mem o rows × ((serves slug o ≡ true) × (os ≡ o ∷ []))))

  IsOne-cons : (o : OrgRow) (rows os : List OrgRow) → IsOne rows os → IsOne (o ∷ rows) os
  IsOne-cons o rows os (inl e) = inl e
  IsOne-cons o rows os (inr (p, (m, h))) = inr (p, (mem-cons_of_mem o m, h))

  filter-IsOne :
      (os : List OrgRow)
      → distinct_orgs os ≡ true
      → All (λ o. All (λ p. clashes o p ≡ false) os) os
      → IsOne os (filter (serves slug) os)
  filter-IsOne [] d h = inl refl
  filter-IsOne (o ∷ os) d ((_, a), h) = elim (Bool-cases (serves slug o)) [
    | inl own ↦
        (let rest = alone o os own (ground arith) a in
          inr (o, (mem-cons_self, (own, ground (arith, rest)))))
    | inr other ↦
        (let same : filter (serves slug) (o ∷ os) ≡ filter (serves slug) os = ground arith in
          subst (IsOne (o ∷ os)) (sym same)
            (IsOne-cons o os _ (filter-IsOne os (ground arith) (fewer o os os h))))
  ]

  filter-any : (os : List OrgRow) → filter (serves slug) os ≡ [] → any (serves slug) os ≡ false
  filter-any [] e = refl
  filter-any (o ∷ os) e = elim (Bool-cases (serves slug o)) [
    | inl own ↦ ground arith
    | inr other ↦ ground (arith, filter-any os)
  ]

  -- Where no live organization has a slug of another and ids are distinct, a page has no lines, as no
  -- row of the table of organizations serves it, or those of one row, which is live, has its page enabled
  -- and is served at this slug.
  pub page_lines-one :
      (now : ℕ) (t : Source)
      → distinct_orgs t.orgs ≡ true
      → IsApart (record { orgs = t.orgs; monitors = t.monitors })
      → ((any (serves slug) t.orgs ≡ false) × (page_lines now slug t ≡ []))
        ⊎ ((o : OrgRow) × (Mem o t.orgs
              × ((o.deleted ≡ false)
                  × ((o.status_page_enabled ≡ true)
                      × ((or_zero o.status_page_slug o.slug ≡ slug)
                          × (page_lines now slug t ≡ lines_of now t o))))))
  unfolding page_lines join_all
  page_lines-one now t d h = elim (filter-IsOne t.orgs d h) [
    | inl e ↦ inl (filter-any t.orgs e, ap (join_all (lines_of now t)) e)
    | inr (o, (m, (own, e))) ↦
        (let (live, (on, at)) = serves-parts o own in
          let lines = ap (join_all (lines_of now t)) e ∙ append_nil (lines_of now t o) in
          inr (o, (m, (live, (on, (at, lines))))))
  ]
