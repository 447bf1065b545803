-- ===== src/Dispatch/Delivery.antt =====
-- What a run of the dispatcher sends while the database answers.
use beaconpulse.Prelude.{
  append_assoc, append_nil, ℕ, ◌≡◌, ◌∙◌, sym, ap, refl, inl, inr, Bool, true, false, ◌||◌, Option,
  none, some, List, [], ◌∷◌, ◌++◌, arith, Bool-cases, Option-cases, if◌then◌else◌, ◌==◌, All,
}
use beaconpulse.World.{Result, ok, World, db, ◌>>◌, pure, record_audit}
use beaconpulse.World.Rules.{bind-run}
use beaconpulse.Dispatch.{
  Dispatcher, AlertEvent, Channel, Message, Attempt, Tables, Decrypted, enabled_of, cached,
  channels_for, list_enabled, emit, is_suppressed, record_suppressed, message_of, dispatch_fallback,
  deliver, deliver_all, dispatch_to, dispatch_event, dispatch_from, dispatch_alerts,
  decrypt_channel, deliver_by, fall_back, handle,
}

-- A step from one world to the next that fails nothing, keeps the channels and sends these attempts.
pub record Sends (w w' : World Tables) (sent : List Attempt) : Type 0 where
  pub quiet : w'.faults ≡ []
  pub kept : w'.tables.channels ≡ w.tables.channels
  pub outbox : w'.tables.outbox ≡ w.tables.outbox ++ sent

Sends-refl : (w : World Tables) → w.faults ≡ [] → Sends w w []
Sends-refl w h = record { quiet = h; kept = refl; outbox = sym (append_nil w.tables.outbox) }

Sends-trans :
    (w w' w'' : World Tables) (xs ys : List Attempt)
    → Sends w w' xs
    → Sends w' w'' ys
    → Sends w w'' (xs ++ ys)
Sends-trans w w' w'' xs ys a b = record {
  quiet = b.quiet;
  kept = b.kept ∙ a.kept;
  outbox = b.outbox ∙ ap (λ o. o ++ ys) a.outbox ∙ append_assoc w.tables.outbox xs ys;
}

Sends-same : (w w' : World Tables) {xs ys : List Attempt} → xs ≡ ys → Sends w w' xs → Sends w w' ys
Sends-same w w' e a = record {
  quiet = a.quiet;
  kept = a.kept;
  outbox = a.outbox ∙ ap (λ l. w.tables.outbox ++ l) e;
}

module _ (d : Dispatcher) where
  abbrev attempt_by :
      Option (Decrypted → Message → Bool) → Option Decrypted → Channel → Message → List Attempt
  attempt_by none dec ch msg = []
  attempt_by (some send) none ch msg = []
  attempt_by (some send) (some dec) ch msg =
      record { channel = some ch.id; org = ch.org; message = msg; accepted = send dec msg } ∷ []

  -- One attempt for a channel with a notifier and a secret that opens.
  abbrev pub attempt_of : Message → Channel → List Attempt
  attempt_of msg ch = attempt_by (d.registry ch.kind) (decrypt_channel d ch) ch msg

  abbrev pub attempts : Message → List Channel → List Attempt
  attempts msg [] = []
  attempts msg (ch ∷ chs) = attempt_of msg ch ++ attempts msg chs

  abbrev fallback_attempt : Option (ℕ → Message → Bool) → AlertEvent → List Attempt
  fallback_attempt none ev = []
  fallback_attempt (some send) ev =
      record {
        channel = none;
        org = ev.org;
        message = message_of d ev;
        accepted = send ev.org (message_of d ev);
      }
      ∷ []

  abbrev pub attempts_to : AlertEvent → List Channel → List Attempt
  attempts_to ev [] = fallback_attempt d.fallback ev
  attempts_to ev (ch ∷ chs) = attempts (message_of d ev) (ch ∷ chs)

  -- What an event should send, given all channels.
  abbrev pub expected : List Channel → AlertEvent → List Attempt
  expected cs ev =
      if ev.org == 0 || is_suppressed d ev then [] else attempts_to ev (enabled_of ev.org cs)

  abbrev pub all_expected : List Channel → List AlertEvent → List Attempt
  all_expected cs [] = []
  all_expected cs (ev ∷ evs) = expected cs ev ++ all_expected cs evs

  deliver-Sends :
      (ch : Channel) (msg : Message) (w : World Tables)
      → w.faults ≡ []
      → Sends w (deliver d ch msg w).1 (attempt_of msg ch)
  unfolding deliver emit record_audit
  deliver-Sends ch msg w h = go (d.registry ch.kind) (decrypt_channel d ch)
    where
      go :
          (n : Option (Decrypted → Message → Bool)) (o : Option Decrypted)
          → Sends w (deliver_by d n o ch msg w).1 (attempt_by n o ch msg)
      go none o = Sends-refl w h
      go (some send) none = Sends-refl w h
      go (some send) (some dec) = record {
        quiet = ground arith;
        kept = ground arith;
        outbox = ground arith;
      }

  deliver-ok : (ch : Channel) (msg : Message) (w : World Tables) → (deliver d ch msg w).0 ≡ ok tt
  unfolding deliver emit record_audit
  deliver-ok ch msg w = go (d.registry ch.kind) (decrypt_channel d ch)
    where
      go :
          (n : Option (Decrypted → Message → Bool)) (o : Option Decrypted)
          → (deliver_by d n o ch msg w).0 ≡ ok tt
      go none o = refl
      go (some send) none = refl
      go (some send) (some dec) = refl

  Sends-cong :
      (w w' w'' : World Tables) (xs : List Attempt) → w'' ≡ w' → Sends w w' xs → Sends w w'' xs
  Sends-cong w w' w'' xs e a = record {
    quiet = ap (λ v. v.faults) e ∙ a.quiet;
    kept = ap (λ v. v.tables.channels) e ∙ a.kept;
    outbox = ap (λ v. v.tables.outbox) e ∙ a.outbox;
  }

  deliver_all-Sends :
      (msg : Message) (chs : List Channel) (w : World Tables)
      → w.faults ≡ []
      → ((deliver_all d msg chs w).0 ≡ ok tt)
        × Sends w (deliver_all d msg chs w).1 (attempts msg chs)
  unfolding deliver_all
  deliver_all-Sends msg [] w h = (refl, Sends-refl w h)
  deliver_all-Sends msg (ch ∷ chs) w h =
      let first = deliver-Sends ch msg w h in
      let w1 = (deliver d ch msg w).1 in
      let run = bind-run (deliver d ch msg) (λ _. deliver_all d msg chs) w (deliver-ok ch msg w) in
      let (fine, rest) = deliver_all-Sends msg chs w1 first.quiet in
      (
        ap (λ x. x.0) run ∙ fine,
        Sends-cong w (deliver_all d msg chs w1).1 _ _ (ap (λ x. x.1) run) (
            Sends-trans w w1 (deliver_all d msg chs w1).1 (attempt_of msg ch) (attempts msg chs)
              first rest),
      )

  dispatch_fallback-Sends :
      (ev : AlertEvent) (w : World Tables)
      → w.faults ≡ []
      → ((dispatch_fallback d ev w).0 ≡ ok tt)
        × Sends w (dispatch_fallback d ev w).1 (fallback_attempt d.fallback ev)
  unfolding dispatch_fallback emit record_audit
  dispatch_fallback-Sends ev w h = go d.fallback
    where
      go :
          (f : Option (ℕ → Message → Bool))
          → ((fall_back d f ev w).0 ≡ ok tt)
            × Sends w (fall_back d f ev w).1 (fallback_attempt f ev)
      go none = (refl, Sends-refl w h)
      go (some send) =
          (refl, record { quiet = ground arith; kept = ground arith; outbox = ground arith })

  dispatch_to-Sends :
      (ev : AlertEvent) (chs : List Channel) (w : World Tables)
      → w.faults ≡ []
      → ((dispatch_to d ev chs w).0 ≡ ok tt)
        × Sends w (dispatch_to d ev chs w).1 (attempts_to ev chs)
  unfolding dispatch_to
  dispatch_to-Sends ev [] w h = dispatch_fallback-Sends ev w h
  dispatch_to-Sends ev (ch ∷ chs) w h = deliver_all-Sends (message_of d ev) (ch ∷ chs) w h

-- Every cached list is what the table holds.
abbrev IsFresh : List Channel → List (ℕ × List Channel) → Type 0
IsFresh cs cache = All (λ p. p.1 ≡ enabled_of (p.0) cs) cache

cached-enabled_of :
    (org : ℕ) (cs : List Channel) (cache : List (ℕ × List Channel)) {found : List Channel}
    → IsFresh cs cache
    → cached org cache ≡ some found
    → found ≡ enabled_of org cs
unfolding cached
cached-enabled_of org cs [] fresh h = ground arith
cached-enabled_of org cs ((o, x) ∷ cache) (same, fresh) h = elim (Bool-cases (o == org)) [
  | inl hit ↦ ground arith
  | inr miss ↦ cached-enabled_of org cs cache fresh (ground arith)
]

channels_for-IsFresh :
    (org : ℕ) (cache : List (ℕ × List Channel)) (w : World Tables)
    → w.faults ≡ []
    → IsFresh w.tables.channels cache
    → (x : List Channel × List (ℕ × List Channel)) × ((channels_for org cache w).0 ≡ ok x)
      × (x.0 ≡ enabled_of org w.tables.channels)
      × IsFresh w.tables.channels (x.1)
      × Sends w (channels_for org cache w).1 []
unfolding channels_for list_enabled db
channels_for-IsFresh org cache w h fresh = elim (Option-cases (cached org cache)) [
  | inl missing ↦ (
    (enabled_of org w.tables.channels, (org, enabled_of org w.tables.channels) ∷ cache),
    ground arith,
    refl,
    (refl, fresh),
    record {
      quiet = ground arith;
      kept = ground arith;
      outbox = ground (arith, append_nil w.tables.outbox);
    },
  )
  | inr (x, found) ↦ (
    (x, cache),
    ground arith,
    cached-enabled_of org w.tables.channels cache fresh found,
    fresh,
    record {
      quiet = ground arith;
      kept = ground arith;
      outbox = ground (arith, append_nil w.tables.outbox);
    },
  )
]

module _ (d : Dispatcher) where
  record_suppressed-Sends :
      (ev : AlertEvent) (w : World Tables)
      → w.faults ≡ []
      → ((record_suppressed d ev w).0 ≡ ok tt) × Sends w (record_suppressed d ev w).1 []
  unfolding record_suppressed record_audit
  record_suppressed-Sends ev w h = (
    refl,
    record {
      quiet = ground arith;
      kept = ground arith;
      outbox = ground (arith, append_nil w.tables.outbox);
    },
  )

  -- An event leaves a fresh cache and sends what it should.
  abbrev Handles :
      List Attempt → World Tables → Result (List (ℕ × List Channel)) × World Tables → Type 0
  Handles sent w x =
      (cache' : List (ℕ × List Channel)) × (x.0 ≡ ok cache')
      × IsFresh w.tables.channels cache'
      × Sends w (x.1) sent

  handle-Handles :
      (a b : Bool) (ev : AlertEvent) (cache : List (ℕ × List Channel)) (w : World Tables)
      → w.faults ≡ []
      → IsFresh w.tables.channels cache
      → Handles
          (if a || b then [] else attempts_to d ev (enabled_of ev.org w.tables.channels))
          w
          (handle d a b ev cache w)
  handle-Handles true b ev cache w h fresh = (cache, refl, fresh, Sends-refl w h)
  handle-Handles false true ev cache w h fresh =
      let (fine, sends) = record_suppressed-Sends ev w h in
      let run = bind-run (record_suppressed d ev) (λ _. pure cache) w fine in
      (
        cache,
        ap (λ x. x.0) run,
        fresh,
        Sends-cong d w (record_suppressed d ev w).1 _ [] (ap (λ x. x.1) run) sends,
      )
  handle-Handles false false ev cache w h fresh =
      let (x, read, same, fresh', first) = channels_for-IsFresh ev.org cache w h fresh in
      let w1 = (channels_for ev.org cache w).1 in
      let (fine, second) = dispatch_to-Sends d ev (x.0) w1 first.quiet in
      let w2 = (dispatch_to d ev (x.0) w1).1 in
      let run =
        bind-run (channels_for ev.org cache) (λ found. dispatch_to d ev (found.0) >> pure (found.1))
          w read
        ∙ bind-run (dispatch_to d ev (x.0)) (λ _. pure (x.1)) w1 fine in
      (
        x.1,
        ap (λ y. y.0) run,
        fresh',
        Sends-cong d w w2 _ _ (ap (λ y. y.1) run) (
            Sends-same w w2 (ap (attempts_to d ev) same)
              (Sends-trans w w1 w2 [] (attempts_to d ev (x.0)) first second)),
      )

  IsFresh-kept :
      {cs cs' : List Channel} (cache : List (ℕ × List Channel))
      → cs' ≡ cs
      → IsFresh cs cache
      → IsFresh cs' cache
  IsFresh-kept [] e fresh = tt
  IsFresh-kept ((o, x) ∷ cache) e (same, fresh) =
      (same ∙ ap (enabled_of o) (sym e), IsFresh-kept cache e fresh)

  dispatch_from-Sends :
      (cache : List (ℕ × List Channel)) (evs : List AlertEvent) (w : World Tables)
      → w.faults ≡ []
      → IsFresh w.tables.channels cache
      → Sends w (dispatch_from d cache evs w).1 (all_expected d w.tables.channels evs)
  unfolding dispatch_from dispatch_event
  dispatch_from-Sends cache [] w h fresh = Sends-refl w h
  dispatch_from-Sends cache (ev ∷ evs) w h fresh =
      let (cache', fine, fresh', first) =
        handle-Handles (ev.org == 0) (is_suppressed d ev) ev cache w h fresh in
      let w1 = (handle d (ev.org == 0) (is_suppressed d ev) ev cache w).1 in
      let run =
        bind-run (handle d (ev.org == 0) (is_suppressed d ev) ev cache) (λ c. dispatch_from d c evs)
          w fine in
      let rest =
        dispatch_from-Sends cache' evs w1 first.quiet (IsFresh-kept cache' first.kept fresh') in
      Sends-cong d w (dispatch_from d cache' evs w1).1 _ _ (ap (λ x. x.1) run) (
        Sends-trans w w1 (dispatch_from d cache' evs w1).1 _ _ first
          (Sends-same w1 _ (ap (λ cs. all_expected d cs evs) first.kept) rest))

  -- While the database answers, a run sends exactly what it should, in order: for each event with an
  -- organization that no window covers, one attempt for every enabled channel of the organization that
  -- has a notifier and a secret that opens, whatever became of the attempts before it; and where there
  -- is no enabled channel at all, one to the default recipients if those are wired.
  pub dispatch_alerts-Sends :
      (evs : List AlertEvent) (w : World Tables)
      → w.faults ≡ []
      → Sends w (dispatch_alerts d evs w).1 (all_expected d w.tables.channels evs)
  unfolding dispatch_alerts
  dispatch_alerts-Sends evs w h = dispatch_from-Sends [] evs w h tt
