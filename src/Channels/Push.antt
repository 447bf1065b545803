-- ===== src/Channels/Push.antt =====
-- Push channels are switched on by the first device, and never again.
use beaconpulse.Text.{Text}
use beaconpulse.Channels.{
  create_channel, create_missing, find_by_type, push_channel, ensure_push_channel, has_type,
  insert_channel, same_type,
}
use mathlib.Core.Path.{subst}
use beaconpulse.Prelude.{
  sym, Option-cases, find, arith, ℕ, ◌∙◌, ◌≡◌, ap, none, some, ◌∷◌, inl, inr, true,
}
use beaconpulse.World.{db, World, ok}
use beaconpulse.Dispatch.{ChannelType, Channel, Tables}

same_type_refl : (kind : ChannelType) → same_type kind kind ≡ true
same_type_refl kind = ground arith

-- What a registration of a device does to the channels: nothing where one of the type is there, muted
-- or not, and otherwise it adds one.
pub data IsEnsured (id org : ℕ) (kind : ChannelType) (name : Text) (before after : Tables)
    : Type 0 where
  already :
      {c : Channel}
      → find (has_type org kind) before.channels ≡ some c
      → after ≡ before
      → IsEnsured id org kind name before after
  added :
      find (has_type org kind) before.channels ≡ none
      → after ≡ record before { channels = push_channel id org kind name ∷ before.channels }
      → IsEnsured id org kind name before after

module _ (id org : ℕ) (kind : ChannelType) (name : Text) where
  inserted :
      (t : Tables)
      → (insert_channel (push_channel id org kind name) t).0 ≡ ok tt
      → (insert_channel (push_channel id org kind name) t).1
        ≡ record t { channels = push_channel id org kind name ∷ t.channels }
  unfolding insert_channel
  inserted t h = ground arith

  ensure-IsEnsured :
      (w : World Tables)
      → (ensure_push_channel id org kind name w).0 ≡ ok tt
      → IsEnsured id org kind name w.tables (ensure_push_channel id org kind name w).1.tables
  unfolding ensure_push_channel find_by_type create_missing create_channel db
  ensure-IsEnsured w h = elim (Option-cases (find (has_type org kind) w.tables.channels)) [
    | inl e ↦ added e (ground (arith, inserted w.tables))
    | inr (c, e) ↦ already e (ground arith)
  ]

  ensured-found :
      (before after : Tables)
      → IsEnsured id org kind name before after
      → (c : Channel) × (find (has_type org kind) after.channels ≡ some c)
  unfolding has_type
  ensured-found before after (already {c = c} e same) = (c, rw same e)
  ensured-found before after (added e same) =
      (push_channel id org kind name, ground (arith, same, same_type_refl kind))

  ensure-settled :
      (w : World Tables) {c : Channel}
      → find (has_type org kind) w.tables.channels ≡ some c
      → (ensure_push_channel id org kind name w).1.tables ≡ w.tables
  unfolding ensure_push_channel find_by_type create_missing db
  ensure-settled w {c = c} e = ground arith

-- A device that registers gives its organization a channel of its type if it has none, and changes
-- nothing otherwise, so that a channel that was muted stays muted; the registrations after it, in any
-- state with the tables that it left and whatever fails in them, change nothing.
pub ensure-ensure :
    (id later org : ℕ) (kind : ChannelType) (name : Text) (w again : World Tables)
    → (ensure_push_channel id org kind name w).0 ≡ ok tt
    → again.tables ≡ (ensure_push_channel id org kind name w).1.tables
    → IsEnsured id org kind name w.tables again.tables
      × ((ensure_push_channel later org kind name again).1.tables ≡ again.tables)
ensure-ensure id later org kind name w again h same =
    let step = ensure-IsEnsured id org kind name w h in
    let (c, found) = ensured-found id org kind name w.tables _ step in
    (
      subst (IsEnsured id org kind name w.tables) (sym same) step,
      ensure-settled later org kind name again
          (ap (λ t. find (has_type org kind) t.channels) same ∙ found),
    )
