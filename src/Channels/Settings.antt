-- ===== src/Channels/Settings.antt =====
-- What creating and updating a channel come to.
use beaconpulse.Channels.Validation
use beaconpulse.World.Rules.{Result-cases, bind-ok}
use beaconpulse.Channels.Validation.{validate_channel, slack_settings, is_https}
use beaconpulse.Text.{drop_while, trim, trim_space, codes, Text}
use mathlib.Core.Path.{subst}
use beaconpulse.Prelude.{
  find, arith, sym, List, ℕ, ◌∙◌, ◌≡◌, ◌≢◌, refl, ap, none, some, [], ◌∷◌, ◌++◌, inl, inr, false,
  if◌then◌else◌,
}
use beaconpulse.World.{record_audit, db, World, ok}
use beaconpulse.Channels.{
  update_permitted, switched, is_channel, reconfigured, insert_channel, resealed, create_channel,
  of_option, renamed, encrypt_secret, get_channel, merged, new_channel, secret_or, store_new,
  store_update, of_check, create, update, Services, Actor, CreateInput, UpdateInput,
}
use beaconpulse.Dispatch.{enabled_of, slack, Channel, Tables}

module _ (s : Services) where
  encrypt-stays : (secret : Text) (w : World Tables) → (encrypt_secret s secret w).1 ≡ w
  unfolding encrypt_secret of_option
  encrypt-stays [] w = refl
  encrypt-stays (c ∷ secret) w = ground arith

  create-steps :
      (id : ℕ) (actor : Actor) (input : CreateInput) (w : World Tables) {c : Channel}
      → (create s id actor input w).0 ≡ ok c
      → (enc : Text) × (validate_channel s.parse_url input.kind input.config input.secret ≡ none)
        × (create s id actor input w ≡ store_new s actor (new_channel s id actor input enc) w)
  unfolding create of_check
  create-steps id actor input w h = elim (Result-cases (encrypt_secret s input.secret w).0) [
    | inl (enc, e) ↦ (enc, ground arith, ground (arith, encrypt-stays input.secret w))
    | inr (x, e) ↦ ground arith
  ]

  store_new-adds :
      (actor : Actor) (c : Channel) (w : World Tables) {d : Channel}
      → (store_new s actor c w).0 ≡ ok d
      → (d ≡ c) × ((store_new s actor c w).1.tables.channels ≡ c ∷ w.tables.channels)
  unfolding store_new create_channel insert_channel db record_audit
  store_new-adds actor c w h = ground arith

  enabled_of-cons :
      (org : ℕ) (c : Channel) (cs : List Channel)
      → c.org ≡ org
      → enabled_of org (c ∷ cs) ≡ (if c.enabled then c ∷ [] else []) ++ enabled_of org cs
  unfolding enabled_of
  enabled_of-cons org c cs e = ground arith

  -- A creation that succeeds adds one channel, whose settings have the shape that its type needs, and
  -- the dispatcher reads it from then on exactly if it is enabled.
  pub create-enabled_of :
      (id : ℕ) (actor : Actor) (input : CreateInput) (w : World Tables) {c : Channel}
      → (create s id actor input w).0 ≡ ok c
      → (validate_channel s.parse_url c.kind c.config input.secret ≡ none)
        × ((create s id actor input w).1.tables.channels ≡ c ∷ w.tables.channels)
        × (enabled_of actor.org (create s id actor input w).1.tables.channels
            ≡ (if c.enabled then c ∷ [] else []) ++ enabled_of actor.org w.tables.channels)
  create-enabled_of id actor input w {c = c} h =
      let (enc, shaped, same) = create-steps id actor input w h in
      let made = new_channel s id actor input enc in
      let (is_made, added) = store_new-adds actor made w (ap (λ r. r.0) (sym same) ∙ h) in
      let rows =
        ap (λ r. r.1.tables.channels) same
        ∙ added
        ∙ ap (λ d. d ∷ w.tables.channels) (sym is_made) in
      (
        ground (arith, is_made, shaped),
        rows,
        ap (enabled_of actor.org) rows
            ∙ enabled_of-cons actor.org c w.tables.channels (ap (λ d. d.org) is_made),
      )

  get_channel-found :
      (org id : ℕ) (w : World Tables) {c d : Channel}
      → find (is_channel org id) w.tables.channels ≡ some c
      → (get_channel org id w).0 ≡ ok d
      → d ≡ c
  unfolding get_channel db
  get_channel-found org id w found h = ground arith

  merged-kind :
      (input : UpdateInput) (c : Channel) (w : World Tables) {m : Channel}
      → input.secret ≡ none
      → (merged s input c w).0 ≡ ok m
      → m.kind ≡ c.kind
  unfolding merged renamed resealed reconfigured switched
  merged-kind input c w kept h = ground arith

  store_update-shaped :
      (actor : Actor) (input : UpdateInput) (c : Channel) (w : World Tables) {m : Channel}
      → (store_update s actor input c w).0 ≡ ok m
      → validate_channel s.parse_url c.kind c.config (secret_or c input.secret) ≡ none
  unfolding store_update of_check
  store_update-shaped actor input c w h = ground arith

  update-permitted :
      (actor : Actor) (id : ℕ) (input : UpdateInput) (w : World Tables) {m : Channel}
      → (update s actor id input w).0 ≡ ok m
      → (update_permitted s actor id input w).0 ≡ ok m
  unfolding update
  update-permitted actor id input w h = ground arith

  update-steps :
      (actor : Actor) (id : ℕ) (input : UpdateInput) (w : World Tables) {m : Channel}
      → (update s actor id input w).0 ≡ ok m
      → (c : Channel) × (d : Channel) × (at : World Tables) × ((get_channel actor.org id w).0
          ≡ ok c)
        × ((merged s input c (get_channel actor.org id w).1).0 ≡ ok d)
        × ((store_update s actor input d at).0 ≡ ok m)
  unfolding update_permitted
  update-steps actor id input w h =
      let (c, got, h1, e1) =
        bind-ok (get_channel actor.org id) _ w (update-permitted actor id input w h) in
      let (d, joined, h2, e2) = bind-ok (merged s input c) _ (get_channel actor.org id w).1 h1 in
      (c, d, (merged s input c (get_channel actor.org id w).1).1, got, joined, h2)

  slack-refused :
      (c : Channel)
      → is_https (s.parse_url (codes "present")) ≡ false
      → is_https (s.parse_url []) ≡ false
      → c.kind ≡ slack
      → validate_channel s.parse_url c.kind c.config (secret_or c none) ≢ none
  unfolding validate_channel secret_or slack_settings Validation.first_of trim_space trim drop_while
  slack-refused c placeholder empty kind h = ground arith

  -- An update that keeps the secret of a Slack channel is always refused, where the placeholder and
  -- the empty text are no https URLs.
  pub update-slack :
      (actor : Actor) (id : ℕ) (input : UpdateInput) (w : World Tables) {c : Channel}
      → is_https (s.parse_url (codes "present")) ≡ false
      → is_https (s.parse_url []) ≡ false
      → find (is_channel actor.org id) w.tables.channels ≡ some c
      → c.kind ≡ slack
      → input.secret ≡ none
      → (m : Channel) → (update s actor id input w).0 ≢ ok m
  update-slack actor id input w {c = c} placeholder empty found kind kept m h =
      let (c', d, at, got, joined, stored) = update-steps actor id input w h in
      slack-refused d placeholder empty
        (merged-kind input c' _ kept joined
          ∙ ap (λ k. k.kind) (get_channel-found actor.org id w found got)
          ∙ kind)
        (subst (λ o. validate_channel s.parse_url d.kind d.config (secret_or d o) ≡ none) kept
          (store_update-shaped actor input d at stored))
