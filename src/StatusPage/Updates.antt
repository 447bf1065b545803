-- ===== src/StatusPage/Updates.antt =====
-- Updates of SettingsService in backend/internal/domain/statuspage/statuspage.go and the namespace.
use beaconpulse.Slug.{make}
use beaconpulse.World.Rules.{guard_rule, db_rule, db-keeps}
use beaconpulse.Text.{text_eq, trim_space, is_empty, Text}
use beaconpulse.Prelude.{
  length, ltb, find, ℕ, ◌≡◌, ◌∙◌, refl, ap, sym, Bool, true, false, Option, none, some, List, [],
  ◌∷◌, if◌then◌else◌, arith,
}
use mathlib.Core.Path.{subst}
use beaconpulse.StatusPage.Settings.{
  settings_row, update_tx, published_count, get_row, is_available, is_live, update_row, with_slug,
  apply_slug, cleared, get, note, save, slug_available, with_enabled, with_title, apply_candidate,
  OrgRow, Tables, Settings, UpdateInput, Draft, update,
}
use beaconpulse.StatusPage.Slugs.{own_claimable, update_tx-IsApart, IsApart, is_claimable}
use beaconpulse.Role
use beaconpulse.Role.{Role}
use beaconpulse.World.{
  conflict, new_error, pure, validation_error, throw, and_then, World, Result, ok, err, M, ◌>>=◌,
}
use beaconpulse.World.Keeping.{Keeps-bind, Keeps-db, Keeps, keeps_rules}

module _ {A B : Type 0} where
  after-IsApart :
      (m : M Tables A) (f : A → M Tables B) (w : World Tables)
      → IsApart (m w).1.tables
      → ((a : A) → Keeps IsApart (f a))
      → IsApart ((m >>= f) w).1.tables
  unfolding Keeps
  after-IsApart m f w h k = go (m w).0 (m w).1 h
    where
      go :
          (r : Result A) (w' : World Tables)
          → IsApart w'.tables
          → IsApart (and_then r w' f).1.tables
      go (ok a) w' h' = k a w' h'
      go (err e) w' h' = h'

module _ (org : ℕ) (t : Tables) (apart : IsApart t) where
  -- A draft that may be written, made without a change to the tables.
  abbrev IsDrafted : Result Draft × World Tables → Type 0
  IsDrafted (ok (s, _), w) = (w.tables ≡ t) × (is_claimable org s.custom_slug t.orgs ≡ true)
  IsDrafted (err _, w) = w.tables ≡ t

  drafted-bind :
      {B : Type 0} (m : M Tables Draft) (f : Draft → M Tables B) (w : World Tables)
      → IsDrafted (m w)
      → ((s : Settings) (c : Bool) (w' : World Tables)
          → w'.tables ≡ t
          → is_claimable org s.custom_slug t.orgs ≡ true
          → IsApart (f (s, c) w').1.tables)
      → IsApart ((m >>= f) w).1.tables
  drafted-bind {B = B} m f w h k = go (m w).0 (m w).1 h
    where
      go :
          (r : Result Draft) (w' : World Tables)
          → IsDrafted (r, w')
          → IsApart (and_then r w' f).1.tables
      go (ok (s, c)) w' (e, q) = k s c w' e q
      go (err e) w' h' = subst IsApart (sym h') apart

  title-IsDrafted :
      (o : Option Text) (s : Settings) (c : Bool) (w : World Tables)
      → w.tables ≡ t
      → is_claimable org s.custom_slug t.orgs ≡ true
      → IsDrafted (with_title o (s, c) w)
  title-IsDrafted none s c w e q = (e, q)
  title-IsDrafted (some raw) s c w e q = go (ltb 120 (length (trim_space raw)))
    where
      go :
          (b : Bool)
          → IsDrafted (
              (if b
                  then throw (validation_error "title is too long" ("title" ∷ []))
                  else pure (record s { title = trim_space raw }, true))
                w)
      go true = e
      go false = (e, q)

  cleared-IsDrafted :
      (s : Settings) (c : Bool) (w : World Tables)
      → w.tables ≡ t
      → is_claimable org s.custom_slug t.orgs ≡ true
      → IsDrafted (ok (cleared s c), w)
  cleared-IsDrafted s c w e q = go (is_empty s.custom_slug)
    where
      go :
          (b : Bool)
          → IsDrafted (
            ok (if b then (s, c) else (record s { custom_slug = []; slug = s.org_slug }, true)),
            w,
          )
      go true = (e, q)
      go false = (e, refl)

  IsDrafted-if :
      (b : Bool) (m n : M Tables Draft) (w : World Tables)
      → IsDrafted (m w)
      → (b ≡ false → IsDrafted (n w))
      → IsDrafted ((if b then m else n) w)
  IsDrafted-if true m n w h k = h
  IsDrafted-if false m n w h k = k refl

  candidate-IsDrafted :
      (slug : Text) (s : Settings) (c : Bool) (w : World Tables)
      → w.tables ≡ t
      → is_claimable org s.custom_slug t.orgs ≡ true
      → IsDrafted (apply_candidate org slug (s, c) w)
  unfolding apply_candidate slug_available
  candidate-IsDrafted slug s c w e q =
      IsDrafted-if (is_empty slug)
        (throw (validation_error "invalid status page URL" ("slug" ∷ []))) _ w e
        (λ _.
          IsDrafted-if (text_eq slug s.custom_slug) (pure (s, c)) _ w (e, q)
            (λ _.
              IsDrafted-if (text_eq slug s.org_slug) (pure (cleared s c)) _ w
                (cleared-IsDrafted s c w e q)
                (λ _.
                  db_rule IsDrafted w _ _
                    (λ fs. claim fs (is_available org slug w.tables.orgs) refl) (λ fs. e))))
    where
      claim :
          (fs : List Bool) (b : Bool)
          → is_available org slug w.tables.orgs ≡ b
          → IsDrafted (
              (if b
                  then pure (record s { custom_slug = slug; slug = slug }, true)
                  else throw (new_error conflict "that status page URL is already taken"))
                (record w { faults = fs }))
      claim fs true a =
          let there : is_available org slug t.orgs ≡ true =
            ap (λ x. is_available org slug x.orgs) (sym e) ∙ a in
          (e, ground (arith, there))
      claim fs false a = e

  slug-IsDrafted :
      (o : Option Text) (s : Settings) (c : Bool) (w : World Tables)
      → w.tables ≡ t
      → is_claimable org s.custom_slug t.orgs ≡ true
      → IsDrafted (with_slug org o (s, c) w)
  unfolding apply_slug
  slug-IsDrafted none s c w e q = (e, q)
  slug-IsDrafted (some raw) s c w e q =
      IsDrafted-if (is_empty (trim_space raw)) (pure (cleared s c)) _ w
        (cleared-IsDrafted s c w e q) (λ _. candidate-IsDrafted (make raw []) s c w e q)

module _ (org user : ℕ) where
  Keeps-note : (c : Bool) → Keeps IsApart (note org user c)
  Keeps-note c = search (keeps_rules)

  Keeps-get : Keeps IsApart (get org)
  unfolding get get_row published_count
  Keeps-get = search (keeps_rules, Keeps-db)

  save-IsApart :
      (s : Settings) (c : Bool) (w : World Tables)
      → IsApart w.tables
      → is_claimable org s.custom_slug w.tables.orgs ≡ true
      → IsApart (save org user (s, c) w).1.tables
  unfolding save update_row
  save-IsApart s c w h q =
      after-IsApart (update_row org s) _ w
        (db-keeps IsApart (update_tx org s) w h (update_tx-IsApart org s w.tables q h))
        (λ _. Keeps-bind IsApart (note org user c) _ (Keeps-note c) (λ _. Keeps-get))

  changed-IsApart :
      (input : UpdateInput) (s : Settings) (c : Bool) (w : World Tables)
      → IsApart w.tables
      → is_claimable org s.custom_slug w.tables.orgs ≡ true
      → IsApart
          ((with_title input.title (s, c) >>= λ titled.
              with_slug org input.slug titled >>= save org user)
            w).1.tables
  changed-IsApart input s c w h q =
      drafted-bind org w.tables h (with_title input.title (s, c)) _ w
        (title-IsDrafted org w.tables h input.title s c w refl q)
        (λ s' c' w' e q'.
          drafted-bind org w.tables h (with_slug org input.slug (s', c')) _ w'
            (slug-IsDrafted org w.tables h input.slug s' c' w' e q')
            (λ s2 c2 w2 e2 q2.
              save-IsApart s2 c2 w2 (subst IsApart (sym e2) h)
                (ap (λ x. is_claimable org s2.custom_slug x.orgs) e2 ∙ q2)))

  switched-IsApart :
      (input : UpdateInput) (o : Option Bool) (s : Settings) (w : World Tables)
      → IsApart w.tables
      → is_claimable org s.custom_slug w.tables.orgs ≡ true
      → IsApart
          ((with_title input.title (with_enabled o (s, false)) >>= λ titled.
              with_slug org input.slug titled >>= save org user)
            w).1.tables
  switched-IsApart input none s w h q = changed-IsApart input s false w h q
  switched-IsApart input (some b) s w h q =
      changed-IsApart input (record s { enabled = b }) true w h q

  found-IsApart :
      (input : UpdateInput) (r : Option OrgRow) (w : World Tables)
      → IsApart w.tables
      → find (is_live org) w.tables.orgs ≡ r
      → IsApart
          (and_then (settings_row r) w (λ current.
            with_title input.title (with_enabled input.enabled (current, false)) >>= λ titled.
            with_slug org input.slug titled >>= save org user)).1.tables
  found-IsApart input none w h e = h
  found-IsApart input (some o) w h e =
      switched-IsApart input input.enabled _ w h (own_claimable org o w.tables h e)

  -- If no live organization has a slug, for its name or its page, that another live one has, then so it is
  -- after a change of the settings, whatever is asked for and whatever fails.
  pub update-IsApart :
      (actor : Role) (input : UpdateInput) (w : World Tables)
      → IsApart w.tables
      → IsApart (update actor org user input w).1.tables
  unfolding update get_row
  update-IsApart actor input w h =
      guard_rule (λ r. IsApart r.1.tables) w (Role.can_write actor) _ _
        (λ _.
          db_rule (λ r. IsApart r.1.tables) w _ _
            (λ fs.
              found-IsApart input (find (is_live org) w.tables.orgs) (record w { faults = fs }) h
                refl)
            (λ fs. h))
        h
