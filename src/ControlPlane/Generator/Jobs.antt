-- ===== src/ControlPlane/Generator/Jobs.antt =====
-- Which jobs Generate of backend/internal/adapter/controlplane/generator.go makes.
use beaconpulse.ControlPlane.Generator.{
  continue_with, add_for, generated, probe, Generated, build_module, module_for, add_all,
  add_monitor, build_scrape, generate, job_of,
}
use beaconpulse.ControlPlane.{Module, Artifacts, GeneratorConfig}
use beaconpulse.Text.{Text}
use beaconpulse.Prelude.{
  append_assoc, map-append, append_nil, all, filter, arith, is_some, map, ℕ, ◌++◌, ◌≡◌, ◌∙◌, refl,
  ap, sym, Bool, true, false, Option, none, some, List, [], ◌∷◌, if◌then◌else◌,
}
use beaconpulse.Monitor.{
  is_supported, Kind, http, https, ssl, tcp, icmp, dns, heartbeat, github_actions, unsupported,
  Monitor,
}

abbrev pub is_probed : Kind → Bool
is_probed heartbeat = false
is_probed github_actions = false
is_probed t = is_supported t

module _ (show_id : ℕ → Text) (cfg : GeneratorConfig) where
  abbrev pub jobs : Artifacts → List Text
  jobs a = map (λ s. s.job_name) a.scrapes

  abbrev pub jobs_of : List Monitor → List Text
  jobs_of ms = map (job_of show_id cfg) (filter (λ m. is_probed m.kind) ms)

  -- The documents exist and add these jobs to those before.
  abbrev Adds : Artifacts → List Text → Generated → Type 0
  Adds a js g = (b : Artifacts) × ((g ≡ generated b) × (jobs b ≡ jobs a ++ js))

  probe-Adds :
      (m : Monitor) (o : Option (Module × Text)) (a : Artifacts)
      → is_some o ≡ true
      → Adds a (job_of show_id cfg m ∷ []) (probe show_id cfg m o a)
  unfolding build_scrape
  probe-Adds m none a h = ground arith
  probe-Adds m (some (_, target)) a h =
      (_, (refl, map-append (λ s. s.job_name) a.scrapes (build_scrape show_id cfg m target ∷ [])))

  module_for_probed :
      (t : Kind) (m : Monitor) → is_probed t ≡ true → is_some (module_for cfg t m) ≡ true
  module_for_probed http m h = refl
  module_for_probed https m h = refl
  module_for_probed ssl m h = refl
  module_for_probed tcp m h = refl
  module_for_probed icmp m h = refl
  module_for_probed dns m h = refl
  module_for_probed heartbeat m h = ground arith
  module_for_probed github_actions m h = ground arith
  module_for_probed (unsupported s) m h = ground arith

  abbrev one_job : Kind → Monitor → List Text
  one_job t m = if is_probed t then job_of show_id cfg m ∷ [] else []

  add_for-Adds :
      (t : Kind) (m : Monitor) (a : Artifacts)
      → (is_probed t ≡ true → is_some (build_module cfg m) ≡ true)
      → is_supported t ≡ true
      → Adds a (one_job t m) (add_for show_id cfg t m a)
  add_for-Adds heartbeat m a k h = (_, (refl, sym (append_nil (jobs a))))
  add_for-Adds github_actions m a k h = (a, (refl, sym (append_nil (jobs a))))
  add_for-Adds (unsupported s) m a k h = ground arith
  add_for-Adds http m a k h = probe-Adds m (build_module cfg m) a (k refl)
  add_for-Adds https m a k h = probe-Adds m (build_module cfg m) a (k refl)
  add_for-Adds ssl m a k h = probe-Adds m (build_module cfg m) a (k refl)
  add_for-Adds tcp m a k h = probe-Adds m (build_module cfg m) a (k refl)
  add_for-Adds icmp m a k h = probe-Adds m (build_module cfg m) a (k refl)
  add_for-Adds dns m a k h = probe-Adds m (build_module cfg m) a (k refl)

  add_monitor-Adds :
      (m : Monitor) (a : Artifacts)
      → is_supported m.kind ≡ true
      → Adds a (one_job m.kind m) (add_monitor show_id cfg m a)
  unfolding add_monitor build_module
  add_monitor-Adds m a h = add_for-Adds m.kind m a (module_for_probed m.kind m) h

  jobs_of-cons :
      (m : Monitor) (ms : List Monitor) → jobs_of (m ∷ ms) ≡ one_job m.kind m ++ jobs_of ms
  jobs_of-cons m ms = ground arith

  add_all-Adds :
      (ms : List Monitor) (a : Artifacts)
      → all (λ m. is_supported m.kind) ms ≡ true
      → Adds a (jobs_of ms) (add_all show_id cfg ms a)
  unfolding add_all
  add_all-Adds [] a h = (a, (refl, sym (append_nil (jobs a))))
  add_all-Adds (m ∷ ms) a h =
      let (b, (e, j)) = add_monitor-Adds m a (ground arith) in
      let (c, (e', j')) = add_all-Adds ms b (ground arith) in
      let step = ap (λ g. continue_with show_id cfg g (add_all show_id cfg ms)) e in
      let added =
        j'
        ∙ ap (λ js. js ++ jobs_of ms) j
        ∙ append_assoc (jobs a) (one_job m.kind m) (jobs_of ms)
        ∙ ap (λ js. jobs a ++ js) (sym (jobs_of-cons m ms)) in
      (c, (step ∙ e', added))

  -- Monitors whose types are all supported have documents, whose jobs are, in order, one for each monitor
  -- that is neither a heartbeat nor reported by GitHub.
  pub generate-jobs :
      (ms : List Monitor)
      → all (λ m. is_supported m.kind) ms ≡ true
      → (a : Artifacts) × ((generate show_id cfg ms ≡ generated a) × (jobs a ≡ jobs_of ms))
  unfolding generate
  generate-jobs ms h = add_all-Adds ms (record { modules = []; scrapes = []; rules = [] }) h
