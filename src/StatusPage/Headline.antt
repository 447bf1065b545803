-- ===== src/StatusPage/Headline.antt =====
-- The headline of a page, without counters.
use beaconpulse.Text.{Text}
use beaconpulse.StatusPage.{
  start, headline, summarise, unknown_page, operational, under_maintenance, degraded_page, outage,
  Overall, count, Group, Shown, Tally, count_all, count_groups,
}
use beaconpulse.Prelude.{
  sym, ℕ, ◌+◌, ◌-◌, ◌≤◌, ◌≡◌, ◌∙◌, refl, ap, ◌&&◌, ◌||◌, not, Bool, true, false, Option, List, [],
  ◌∷◌, ◌++◌, ltb, ◌==◌, if◌then◌else◌, arith, all, any,
}
use beaconpulse.Monitor.{Status, up, down, degraded, unknown, paused}

abbrev is_up : Status → Bool
is_up up = true
is_up _ = false

abbrev is_down : Status → Bool
is_down down = true
is_down _ = false

abbrev is_degraded : Status → Bool
is_degraded degraded = true
is_degraded _ = false

abbrev pub shown_all : List Group → List Shown
shown_all [] = []
shown_all (g ∷ gs) = g.monitors ++ shown_all gs

abbrev some_active : (Status → Bool) → List Shown → Bool
some_active p ms = any (λ m. not m.in_maintenance && p m.status) ms

abbrev all_active : (Status → Bool) → List Shown → Bool
all_active p ms = all (λ m. m.in_maintenance || p m.status) ms

-- What the page should say, of the monitors that no window covers: down if all are; degraded if some are
-- down or degraded; else that work is planned, if a window covers one; operational if all are up.
unfoldable pub verdict : List Shown → Overall
verdict ms =
    if some_active (λ _. true) ms && all_active is_down ms
    then outage
    else if some_active (λ s. is_down s || is_degraded s) ms
    then degraded_page
    else if any (λ m. m.in_maintenance) ms
    then under_maintenance
    else if any (λ _. true) ms && all_active is_up ms
    then operational
    else unknown_page

count_all-append :
    (ms ns : List Shown) (t : Tally) → count_all (ms ++ ns) t ≡ count_all ns (count_all ms t)
unfolding count_all
count_all-append [] ns t = refl
count_all-append (m ∷ ms) ns t = count_all-append ms ns (count m t)

count_groups-count_all :
    (gs : List Group) (t : Tally) → count_groups gs t ≡ count_all (shown_all gs) t
unfolding count_groups count_all
count_groups-count_all [] t = refl
count_groups-count_all (g ∷ gs) t =
    count_groups-count_all gs (count_all g.monitors t)
    ∙ sym (count_all-append g.monitors (shown_all gs) t)

-- How many monitors pass a test and are in no window.
abbrev tally : (Status → Bool) → List Shown → ℕ
tally p [] = 0
tally p (m ∷ ms) =
    let n = tally p ms in if m.in_maintenance then n else if p m.status then n + 1 else n

abbrev covered : List Shown → ℕ
covered [] = 0
covered (m ∷ ms) = let n = covered ms in if m.in_maintenance then n + 1 else n

-- The counters after the monitors, from those before.
abbrev IsTally : Tally → List Shown → Tally → Type 0
IsTally t ms t' =
    (t'.total ≡ t.total + tally (λ _. true) ms + covered ms)
    × (t'.maint ≡ t.maint + covered ms)
    × (t'.downs ≡ t.downs + tally is_down ms)
    × (t'.degradeds ≡ t.degradeds + tally is_degraded ms)
    × (t'.ups ≡ t.ups + tally is_up ms)

abbrev shown_as : Bool → Status → Text → Option ℕ → Shown
shown_as b s name at = record { name = name; status = s; in_maintenance = b; last_checked_at = at }

one-IsTally :
    (b : Bool) (s : Status) (name : Text) (at : Option ℕ) (t : Tally)
    → IsTally t (shown_as b s name at ∷ []) (count (shown_as b s name at) t)
one-IsTally true s name at t = (omega arith, omega arith, omega arith, omega arith, omega arith)
one-IsTally false up name at t = (omega arith, omega arith, omega arith, omega arith, omega arith)
one-IsTally false down name at t = (omega arith, omega arith, omega arith, omega arith, omega arith)
one-IsTally false degraded name at t =
    (omega arith, omega arith, omega arith, omega arith, omega arith)
one-IsTally false unknown name at t =
    (omega arith, omega arith, omega arith, omega arith, omega arith)
one-IsTally false paused name at t =
    (omega arith, omega arith, omega arith, omega arith, omega arith)

count_all-IsTally : (ms : List Shown) (t : Tally) → IsTally t ms (count_all ms t)
unfolding count_all
count_all-IsTally [] t = (omega arith, omega arith, omega arith, omega arith, omega arith)
count_all-IsTally (m ∷ ms) t =
    let (a, b, c, d, e) = count_all-IsTally ms (count m t) in
    let (a', b', c', d', e') = one-IsTally m.in_maintenance m.status m.name m.last_checked_at t in
    (ground arith, ground arith, ground arith, ground arith, ground arith)

bounded : (p : Status → Bool) (ms : List Shown) → tally p ms ≤ tally (λ _. true) ms
bounded p [] = omega arith
bounded p (m ∷ ms) = ground (arith, bounded p ms)

all_active_iff :
    (p : Status → Bool) (ms : List Shown) → (tally p ms == tally (λ _. true) ms) ≡ all_active p ms
all_active_iff p [] = refl
all_active_iff p (m ∷ ms) = ground (arith, all_active_iff p ms, bounded p ms)

some_active_iff : (p : Status → Bool) (ms : List Shown) → ltb 0 (tally p ms) ≡ some_active p ms
some_active_iff p [] = refl
some_active_iff p (m ∷ ms) = ground (arith, some_active_iff p ms)

covered_iff : (ms : List Shown) → ltb 0 (covered ms) ≡ any (λ m. m.in_maintenance) ms
covered_iff [] = refl
covered_iff (m ∷ ms) = ground (arith, covered_iff ms)

some_unwell :
    (ms : List Shown)
    → some_active (λ s. is_down s || is_degraded s) ms
      ≡ (some_active is_down ms || some_active is_degraded ms)
some_unwell [] = refl
some_unwell (m ∷ ms) = ground (arith, some_unwell ms)

some_shown :
    (ms : List Shown)
    → any (λ _. true) ms ≡ (some_active (λ _. true) ms || any (λ m. m.in_maintenance) ms)
some_shown [] = refl
some_shown (m ∷ ms) = ground (arith, some_shown ms)

unwell_live :
    (ms : List Shown)
    → (some_active (λ s. is_down s || is_degraded s) ms && some_active (λ _. true) ms)
      ≡ some_active (λ s. is_down s || is_degraded s) ms
unwell_live [] = refl
unwell_live (m ∷ ms) = ground (arith, unwell_live ms)

-- The two chains of tests agree where the tests do.
same_answer :
    {zero_total live downs some_down some_degraded maint ups : Bool}
    {live' downs' down' degraded' unwell' maint' shown' ups' : Bool}
    → zero_total ≡ not shown'
    → live ≡ live'
    → downs ≡ downs'
    → some_down ≡ down'
    → some_degraded ≡ degraded'
    → maint ≡ maint'
    → ups ≡ ups'
    → unwell' ≡ (down' || degraded')
    → shown' ≡ (live' || maint')
    → (unwell' && live') ≡ unwell'
    → (if zero_total
        then unknown_page
        else if live && downs
        then outage
        else if some_down || some_degraded
        then degraded_page
        else if maint
        then under_maintenance
        else if ups
        then operational
        else unknown_page)
      ≡ (if live' && downs'
          then outage
          else if unwell'
          then degraded_page
          else if maint'
          then under_maintenance
          else if shown' && ups'
          then operational
          else unknown_page)
same_answer z l d sd sg m u w sh un = ground arith

headline-verdict : (ms : List Shown) (t : Tally) → IsTally start ms t → headline t ≡ verdict ms
unfolding headline verdict
headline-verdict ms t (total, maint, downs, degradeds, ups) =
    let live : (t.total - t.maint) ≡ tally (λ _. true) ms = omega arith in
    let none_shown : (t.total == 0) ≡ not (any (λ _. true) ms) =
      ground (arith, some_shown ms, some_active_iff (λ _. true) ms, covered_iff ms) in
    let some_live : ltb 0 (t.total - t.maint) ≡ some_active (λ _. true) ms =
      ground (arith, some_active_iff (λ _. true) ms) in
    let all_down : (t.downs == t.total - t.maint) ≡ all_active is_down ms =
      ground (arith, all_active_iff is_down ms) in
    let all_up : (t.ups == t.total - t.maint) ≡ all_active is_up ms =
      ground (arith, all_active_iff is_up ms) in
    let some_down : ltb 0 t.downs ≡ some_active is_down ms =
      ground (arith, some_active_iff is_down ms) in
    let some_degraded : ltb 0 t.degradeds ≡ some_active is_degraded ms =
      ground (arith, some_active_iff is_degraded ms) in
    let some_covered : ltb 0 t.maint ≡ any (λ m. m.in_maintenance) ms =
      ground (arith, covered_iff ms) in
    same_answer none_shown some_live all_down some_down some_degraded some_covered all_up
      (some_unwell ms) (some_shown ms) (unwell_live ms)

-- The headline is the verdict on the shown monitors, in whatever groups they stand.
pub summarise-verdict : (gs : List Group) → summarise gs ≡ verdict (shown_all gs)
unfolding summarise
summarise-verdict gs =
    ap headline (count_groups-count_all gs start)
    ∙ headline-verdict (shown_all gs) _ (count_all-IsTally (shown_all gs) start)
