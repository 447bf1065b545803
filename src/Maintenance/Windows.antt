-- ===== src/Maintenance/Windows.antt =====
-- What the operations keep of the stored windows.
use beaconpulse.Prelude.{
  Option-cases, ℕ, ◌≡◌, refl, inl, inr, Bool, true, false, not, ◌&&◌, List, [], ◌∷◌, any, all, find,
  ◌==◌, arith, Bool-cases, Option, none, some,
}
use beaconpulse.World.{ok, World, db, record_audit}
use beaconpulse.World.Rules.{Result-cases, db-keeps}
use beaconpulse.Maintenance.{
  Window, Row, Actor, Tables, mem, dedupe_ids, dedupe_from, invalid_fields, satisfies_checks,
  validate, insert_window, get_by_id, update_tx, soft_delete_tx, edit_rows, changed_row, closed_row,
  is_row, is_nil,
}
use beaconpulse.Maintenance.Service.{
  CreateInput, UpdateInput, create, update, delete, opened, merged, deduped,
}

abbrev pub repeats_none : List ℕ → Bool
repeats_none [] = true
repeats_none (x ∷ xs) = not (mem x xs) && repeats_none xs

-- A stored row: the constraints hold, and the list of ids has no repeats and no nil id.
unfoldable pub is_canonical : Row → Bool
is_canonical r =
    satisfies_checks r.window && repeats_none r.window.scope_ids && not (mem 0 r.window.scope_ids)

abbrev pub IsCanonical : Tables → Type 0
IsCanonical t = all is_canonical t.windows ≡ true

mem-dedupe_from :
    (x : ℕ) (seen ids : List ℕ)
    → mem x (dedupe_from seen ids) ≡ (not (x == 0) && not (mem x seen) && mem x ids)
mem-dedupe_from x seen [] = ground arith
mem-dedupe_from x seen (id ∷ ids) =
    ground (arith, mem-dedupe_from x seen ids, mem-dedupe_from x (id ∷ seen) ids)

repeats_none-dedupe_from : (seen ids : List ℕ) → repeats_none (dedupe_from seen ids) ≡ true
repeats_none-dedupe_from seen [] = refl
repeats_none-dedupe_from seen (id ∷ ids) = ground (
  arith,
  repeats_none-dedupe_from seen ids,
  repeats_none-dedupe_from (id ∷ seen) ids,
  mem-dedupe_from id (id ∷ seen) ids,
)

validate-checks : (w : Window) → is_nil (invalid_fields w) ≡ true → satisfies_checks w ≡ true
unfolding invalid_fields satisfies_checks
validate-checks w h = ground arith

module _ {A : Type 0} (q : A → Bool) where
  pub all-find :
      (p : A → Bool) (xs : List A) {a : A} → all q xs ≡ true → find p xs ≡ some a → q a ≡ true
  all-find p [] h e = ground arith
  all-find p (x ∷ xs) h e = elim (Bool-cases (p x)) [
    | inl hit ↦ ground arith
    | inr miss ↦ all-find p xs (ground arith) (ground arith)
  ]

all-edit_rows :
    (q p : Row → Bool) (f : Row → Row) (rs : List Row)
    → ((r : Row) → p r ≡ true → q r ≡ true → q (f r) ≡ true)
    → all q rs ≡ true
    → all q (edit_rows p f rs) ≡ true
unfolding edit_rows
all-edit_rows q p f [] keep h = refl
all-edit_rows q p f (r ∷ rs) keep h = elim (Bool-cases (p r)) [
  | inl hit ↦ ground (arith, all-edit_rows q p f rs keep (ground arith), keep r hit (ground arith))
  | inr miss ↦ ground (arith, all-edit_rows q p f rs keep (ground arith))
]

pub any-edit_rows :
    (q p : Row → Bool) (f : Row → Row) (rs : List Row)
    → ((r : Row) → p r ≡ true → q (f r) ≡ q r)
    → any q (edit_rows p f rs) ≡ any q rs
unfolding edit_rows
any-edit_rows q p f [] keep = refl
any-edit_rows q p f (r ∷ rs) keep = elim (Bool-cases (p r)) [
  | inl hit ↦ ground (arith, any-edit_rows q p f rs keep, keep r hit)
  | inr miss ↦ ground (arith, any-edit_rows q p f rs keep)
]

dedupe_ids-IsCanonical :
    (ids : List ℕ) → (repeats_none (dedupe_ids ids) ≡ true) × (mem 0 (dedupe_ids ids) ≡ false)
unfolding dedupe_ids
dedupe_ids-IsCanonical ids =
    (repeats_none-dedupe_from [] ids, ground (arith, mem-dedupe_from 0 [] ids))

insert_window-IsCanonical :
    (w : Window) (t : Tables)
    → is_canonical (record { window = w; deleted = false }) ≡ true
    → IsCanonical t
    → IsCanonical (insert_window w t).1
unfolding insert_window
insert_window-IsCanonical w t good h = ground arith

is_canonical-closed_row :
    (by now : ℕ) (r : Row) → is_canonical r ≡ true → is_canonical (closed_row by now r) ≡ true
unfolding is_canonical satisfies_checks
is_canonical-closed_row by now r h = h

is_canonical-changed_row :
    (w : Window) (now : ℕ) (r : Row)
    → is_canonical (record { window = w; deleted = false }) ≡ true
    → is_canonical (changed_row w now r) ≡ true
unfolding is_canonical satisfies_checks
is_canonical-changed_row w now r h = h

soft_delete_tx-IsCanonical :
    (now org id by : ℕ) (t : Tables)
    → IsCanonical t
    → IsCanonical (soft_delete_tx now org id by t).1
unfolding soft_delete_tx
soft_delete_tx-IsCanonical now org id by t h = ground (
  arith,
  all-edit_rows is_canonical (is_row org id) (closed_row by now) t.windows
      (λ r hit good. is_canonical-closed_row by now r good) h,
)

update_tx-IsCanonical :
    (now : ℕ) (w : Window) (t : Tables)
    → is_canonical (record { window = w; deleted = false }) ≡ true
    → IsCanonical t
    → IsCanonical (update_tx now w t).1
unfolding update_tx
update_tx-IsCanonical now w t good h = ground (
  arith,
  all-edit_rows is_canonical (is_row w.org w.id) (changed_row w now) t.windows
      (λ r hit old. is_canonical-changed_row w now r good) h,
)

opened-canonical :
    (id now : ℕ) (actor : Actor) (input : CreateInput)
    → is_nil (invalid_fields (opened id now actor input)) ≡ true
    → is_canonical (record { window = opened id now actor input; deleted = false }) ≡ true
unfolding is_canonical opened
opened-canonical id now actor input h =
    ground
      (arith, validate-checks (opened id now actor input) h, dedupe_ids-IsCanonical input.scope_ids)

merged-canonical :
    (now : ℕ) (actor : Actor) (input : UpdateInput) (r : Row)
    → is_canonical r ≡ true
    → is_nil (invalid_fields (merged now actor input r.window)) ≡ true
    → is_canonical (record { window = merged now actor input r.window; deleted = false }) ≡ true
unfolding is_canonical merged
merged-canonical now actor input r old h =
    ground (arith, validate-checks (merged now actor input r.window) h, canonical-deduped)
  where
    canonical-deduped :
        (repeats_none (deduped input.scope_ids r.window.scope_ids) ≡ true)
        × (mem 0 (deduped input.scope_ids r.window.scope_ids) ≡ false)
    canonical-deduped = go input.scope_ids
      where
        go :
            (given : Option (List ℕ))
            → (repeats_none (deduped given r.window.scope_ids) ≡ true)
              × (mem 0 (deduped given r.window.scope_ids) ≡ false)
        go none = (ground arith, ground arith)
        go (some ids) = dedupe_ids-IsCanonical ids

-- Opening a window keeps every stored row canonical.
pub create-IsCanonical :
    (id now : ℕ) (actor : Actor) (input : CreateInput) (w : World Tables)
    → IsCanonical w.tables
    → IsCanonical (create id now actor input w).1.tables
unfolding create validate record_audit
create-IsCanonical id now actor input w h =
    elim (Bool-cases (is_nil (invalid_fields (opened id now actor input)))) [
      | inl valid ↦ ground (
        arith,
        db-keeps IsCanonical (insert_window (opened id now actor input)) w h
            (insert_window-IsCanonical _ w.tables (opened-canonical id now actor input valid) h),
      )
      | inr odd ↦ ground arith
    ]

pub tables-get_by_id : (org id : ℕ) (w : World Tables) → (get_by_id org id w).1.tables ≡ w.tables
unfolding get_by_id db
tables-get_by_id org id w = ground arith

pub get_by_id-find :
    (org id : ℕ) (w : World Tables) {win : Window}
    → (get_by_id org id w).0 ≡ ok win
    → (r : Row) × (find (is_row org id) w.tables.windows ≡ some r) × (win ≡ r.window)
unfolding get_by_id db
get_by_id-find org id w h = elim (Option-cases (find (is_row org id) w.tables.windows)) [
  | inl missing ↦ ground arith
  | inr (r, found) ↦ (r, found, ground arith)
]

-- Changing a window keeps every stored row canonical, whichever fields are given.
pub update-IsCanonical :
    (now : ℕ) (actor : Actor) (id : ℕ) (input : UpdateInput) (w : World Tables)
    → IsCanonical w.tables
    → IsCanonical (update now actor id input w).1.tables
unfolding update validate record_audit
update-IsCanonical now actor id input w h =
    let got = get_by_id actor.org id w in
    let kept : got.1.tables ≡ w.tables = tables-get_by_id actor.org id w in
    elim (Result-cases got.0) [
      | inr (e, failed) ↦ ground arith
      | inl (old, read) ↦
          let (r, found, same) = get_by_id-find actor.org id w read in
          let win = merged now actor input r.window in
          elim (Bool-cases (is_nil (invalid_fields win))) [
            | inr odd ↦ ground arith
            | inl valid ↦
                let good =
                  merged-canonical now actor input r
                    (all-find is_canonical (is_row actor.org id) w.tables.windows h found) valid in
                ground (
                  arith,
                  db-keeps IsCanonical (update_tx now win) got.1 (ground arith)
                      (update_tx-IsCanonical now win got.1.tables good (ground arith)),
                )
          ]
    ]

-- So does closing one.
pub delete-IsCanonical :
    (now : ℕ) (actor : Actor) (id : ℕ) (w : World Tables)
    → IsCanonical w.tables
    → IsCanonical (delete now actor id w).1.tables
unfolding delete record_audit
delete-IsCanonical now actor id w h =
    let got = get_by_id actor.org id w in
    let kept : got.1.tables ≡ w.tables = tables-get_by_id actor.org id w in
    ground (
      arith,
      db-keeps IsCanonical (soft_delete_tx now actor.org id actor.user) got.1 (ground arith)
          (soft_delete_tx-IsCanonical now actor.org id actor.user got.1.tables (ground arith)),
    )
