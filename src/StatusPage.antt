-- ===== src/StatusPage.antt =====
-- The public status page: backend/internal/domain/statuspage/statuspage.go, the headline and the page's
-- groups.
pub mod Headline
pub mod Settings
pub mod Slugs
pub mod Updates
pub mod Public
pub mod Serving
mod Tests
use beaconpulse.Projects.{Environment}
use beaconpulse.Prelude.{
  ℕ, ◌+◌, ◌-◌, ◌&&◌, ◌||◌, Bool, true, false, Option, List, [], ◌∷◌, ltb, ◌==◌, if◌then◌else◌,
}
use beaconpulse.Text.{Text}
use beaconpulse.Monitor.{Status, up, down, degraded, unknown, paused}

pub data Overall : Type 0 where
  operational degraded_page outage under_maintenance unknown_page : Overall

-- The public view of a monitor.
pub record Shown : Type 0 where
  pub name : Text
  pub status : Status
  pub in_maintenance : Bool
  pub last_checked_at : Option ℕ

pub record Group : Type 0 where
  pub name : Text
  pub environment : Environment
  pub monitors : List Shown

-- The counters of Summarise.
pub record Tally : Type 0 where
  pub total : ℕ
  pub ups : ℕ
  pub downs : ℕ
  pub degradeds : ℕ
  pub maint : ℕ

abbrev pub start : Tally
start = record { total = 0; ups = 0; downs = 0; degradeds = 0; maint = 0 }

abbrev count_status : Status → Tally → Tally
count_status up t = record t { ups = t.ups + 1 }
count_status down t = record t { downs = t.downs + 1 }
count_status degraded t = record t { degradeds = t.degradeds + 1 }
count_status _ t = t

-- The body of the inner loop.
abbrev pub count : Shown → Tally → Tally
count m t =
    let counted = record t { total = t.total + 1 } in
    if m.in_maintenance
    then record counted { maint = t.maint + 1 }
    else count_status m.status counted

unfoldable pub count_all : List Shown → Tally → Tally
count_all [] t = t
count_all (m ∷ ms) t = count_all ms (count m t)

unfoldable pub count_groups : List Group → Tally → Tally
count_groups [] t = t
count_groups (g ∷ gs) t = count_groups gs (count_all g.monitors t)

unfoldable pub headline : Tally → Overall
headline t =
    let active = t.total - t.maint in
    if t.total == 0
    then unknown_page
    else if ltb 0 active && t.downs == active
    then outage
    else if ltb 0 t.downs || ltb 0 t.degradeds
    then degraded_page
    else if ltb 0 t.maint
    then under_maintenance
    else if t.ups == active
    then operational
    else unknown_page

-- Summarise
unfoldable pub summarise : List Group → Overall
summarise gs = headline (count_groups gs start)
