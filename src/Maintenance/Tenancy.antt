-- ===== src/Maintenance/Tenancy.antt =====
-- What a window operation can change for the monitors of its own organization and of others.
use beaconpulse.Prelude.{
  ℕ, ◌≡◌, ◌≢◌, ◌∙◌, sym, refl, inl, inr, Bool, false, ◌&&◌, List, [], ◌∷◌, any, find-holds, ◌==◌,
  arith,
}
use beaconpulse.World.{ok, World, record_audit}
use beaconpulse.World.Rules.{db-keeps, Result-cases}
use beaconpulse.Maintenance.{
  Window, Row, Actor, MonitorRow, Tables, validate, insert_window, changed_row, closed_row,
  get_by_id, update_tx, soft_delete_tx, edit_rows, is_row, covers, is_live_monitor,
  active_for_monitor,
}
use beaconpulse.Maintenance.Service.{
  CreateInput, UpdateInput, create, update, delete, opened, merged,
}
use beaconpulse.Maintenance.Windows.{any-edit_rows, tables-get_by_id, get_by_id-find}

org-merged :
    {org : ℕ} (now : ℕ) (actor : Actor) (id : ℕ) (input : UpdateInput) (w : World Tables)
    {old : Window}
    → (get_by_id actor.org id w).0 ≡ ok old
    → actor.org ≢ org
    → (merged now actor input old).org ≢ org
unfolding merged
org-merged now actor id input w read h =
    let (r, found, same) = get_by_id-find actor.org id w read in
    ground (arith, find-holds (is_row actor.org id) w.tables.windows found)

module _ (org monitor at : ℕ) where
  abbrev hits : List MonitorRow → Row → Bool
  hits ms r = any (λ m. m.id == monitor && is_live_monitor org m && covers at r m) ms

  hits-other : (ms : List MonitorRow) (r : Row) → r.window.org ≢ org → hits ms r ≡ false
  unfolding covers is_live_monitor
  hits-other [] r h = refl
  hits-other (m ∷ ms) r h = ground (arith, hits-other ms r h)

  -- The tables answer as these do.
  abbrev pub Answers : Tables → Tables → Type 0
  Answers t t' =
      (active_for_monitor org monitor at t' ≡ active_for_monitor org monitor at t)
      × (t'.monitors ≡ t.monitors)

  insert_window-other : (w : Window) (t : Tables) → w.org ≢ org → Answers t (insert_window w t).1
  unfolding insert_window active_for_monitor
  insert_window-other w t h =
      ground (arith, hits-other t.monitors (record { window = w; deleted = false }) h)

  hits-edit_rows :
      (home id : ℕ) (f : Row → Row) (ms : List MonitorRow) (rs : List Row)
      → home ≢ org
      → ((r : Row) → (f r).window.org ≡ r.window.org)
      → any (hits ms) (edit_rows (is_row home id) f rs) ≡ any (hits ms) rs
  hits-edit_rows home id f ms rs h keeps = any-edit_rows (hits ms) (is_row home id) f rs (λ r hit.
      hits-other ms (f r) (ground (arith, keeps r)) ∙ sym (hits-other ms r (ground arith)))

  soft_delete_tx-other :
      (now home id by : ℕ) (t : Tables) → home ≢ org → Answers t (soft_delete_tx now home id by t).1
  unfolding soft_delete_tx active_for_monitor
  soft_delete_tx-other now home id by t h =
      ground (arith, hits-edit_rows home id (closed_row by now) t.monitors t.windows h (λ r. refl))

  update_tx-other :
      (now : ℕ) (w : Window) (t : Tables) → w.org ≢ org → Answers t (update_tx now w t).1
  unfolding update_tx active_for_monitor
  update_tx-other now w t h =
      ground
        (arith, hits-edit_rows w.org w.id (changed_row w now) t.monitors t.windows h (λ r. refl))

  pub create-other :
      (id now : ℕ) (actor : Actor) (input : CreateInput) (w : World Tables)
      → actor.org ≢ org
      → Answers w.tables (create id now actor input w).1.tables
  unfolding create validate record_audit opened
  create-other id now actor input w h = ground (
    arith,
    db-keeps (Answers w.tables) (insert_window (opened id now actor input)) w (refl, refl)
        (insert_window-other (opened id now actor input) w.tables h),
  )

  pub update-other :
      (now : ℕ) (actor : Actor) (id : ℕ) (input : UpdateInput) (w : World Tables)
      → actor.org ≢ org
      → Answers w.tables (update now actor id input w).1.tables
  unfolding update validate record_audit
  update-other now actor id input w h =
      let got = get_by_id actor.org id w in
      let kept : got.1.tables ≡ w.tables = tables-get_by_id actor.org id w in
      elim (Result-cases got.0) [
        | inr (e, failed) ↦ ground arith
        | inl (old, read) ↦
            let win = merged now actor input old in
            ground (
              arith,
              db-keeps (Answers got.1.tables) (update_tx now win) got.1 (refl, refl)
                  (update_tx-other now win got.1.tables (org-merged now actor id input w read h)),
            )
      ]

  pub delete-other :
      (now : ℕ) (actor : Actor) (id : ℕ) (w : World Tables)
      → actor.org ≢ org
      → Answers w.tables (delete now actor id w).1.tables
  unfolding delete record_audit
  delete-other now actor id w h =
      let got = get_by_id actor.org id w in
      let kept : got.1.tables ≡ w.tables = tables-get_by_id actor.org id w in
      ground (
        arith,
        db-keeps (Answers got.1.tables) (soft_delete_tx now actor.org id actor.user) got.1
            (refl, refl) (soft_delete_tx-other now actor.org id actor.user got.1.tables h),
      )
