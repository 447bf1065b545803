-- ===== src/ControlPlane/Generator.antt =====
-- The documents that a set of monitors needs: Generate, buildModule and buildScrape of
-- backend/internal/adapter/controlplane/generator.go.
pub mod Tenancy
pub mod Jobs
use beaconpulse.ControlPlane.Rules.{kind_text, build_rules}
use beaconpulse.Text.{trim_space, codes, is_empty, text_eq, Text, contains_byte}
use beaconpulse.ControlPlane.{
  Scrape, seconds, Artifacts, DnsProbe, GeneratorConfig, HttpProbe, Module,
}
use beaconpulse.Prelude.{
  filter, ℕ, ◌++◌, Bool, true, false, ◌||◌, not, Option, none, some, List, [], ◌∷◌, if◌then◌else◌,
  ◌==◌,
}
use beaconpulse.Prelude.Int.{ℤ}
use beaconpulse.ControlPlane
use beaconpulse.Monitor.{
  Kind, http, https, ssl, tcp, icmp, dns, heartbeat, github_actions, unsupported, Monitor, Settings,
}

-- `failed` is the error of the monitor that has no module.
pub data Generated : Type 0 where
  failed : ℕ → Generated
  generated : Artifacts → Generated

-- sanitizeID
unfoldable pub sanitize_id : Text → Text
sanitize_id s = filter (λ c. not (c == b'-')) s

unfoldable pub or_default : Text → Text → Text
or_default v d = if is_empty (trim_space v) then d else v

abbrev is_meta : ℕ → Bool
is_meta c = contains_byte (codes "\\.+*?()|[]{}^$") c

-- regexp.QuoteMeta
unfoldable pub quote_meta : Text → Text
quote_meta [] = []
quote_meta (c ∷ s) = if is_meta c then b'\\' ∷ c ∷ quote_meta s else c ∷ quote_meta s

abbrev keyword : Text → List Text
keyword s = if is_empty s then [] else quote_meta s ∷ []

abbrev ip4 : Text
ip4 = codes "ip4"

unfoldable pub http_probe : Settings → HttpProbe
http_probe s = record {
  method = or_default s.method (codes "GET");
  valid_status_codes = s.valid_status_codes;
  follow_redirects = some s.follow_redirects;
  fail_if_body_not_matches_regexp = keyword s.body_keyword;
  fail_if_body_matches_regexp = keyword s.body_not_keyword;
  headers = s.headers;
  body = s.body;
  insecure_skip_verify = if s.skip_tls_verify then some true else none;
  preferred_ip_protocol = ip4;
}

unfoldable pub dns_probe : Monitor → DnsProbe
dns_probe m = record {
  query_name = or_default m.settings.dns_query_name m.target;
  query_type = or_default m.settings.dns_query_type (codes "A");
  preferred_ip_protocol = ip4;
}

abbrev blank_module : Text → Monitor → Module
blank_module prober m = record {
  prober = prober;
  timeout = seconds m.timeout_seconds;
  http = none;
  tcp = none;
  icmp = none;
  dns = none;
}

abbrev http_module : Monitor → Module
http_module m = record (blank_module (codes "http") m) { http = some (http_probe m.settings) }

abbrev module_for : GeneratorConfig → Kind → Monitor → Option (Module × Text)
module_for cfg http m = some (http_module m, m.target)
module_for cfg https m = some (http_module m, m.target)
module_for cfg ssl m = some (http_module m, m.target)
module_for cfg tcp m = some (record (blank_module (codes "tcp") m) { tcp = some ip4 }, m.target)
module_for cfg icmp m = some (record (blank_module (codes "icmp") m) { icmp = some ip4 }, m.target)
module_for cfg dns m =
    some (record (blank_module (codes "dns") m) { dns = some (dns_probe m) }, cfg.dns_resolver)
module_for cfg _ m = none

-- The module and the probe target; none is the error.
unfoldable pub build_module : GeneratorConfig → Monitor → Option (Module × Text)
build_module cfg m = module_for cfg m.kind m

-- `bb.Modules[module] = mod`
unfoldable pub put : Text → Module → List (Text × Module) → List (Text × Module)
put k v [] = (k, v) ∷ []
put k v ((name, old) ∷ ms) = if text_eq name k then (k, v) ∷ ms else (name, old) ∷ put k v ms

module _ (show_id : ℕ → Text) (cfg : GeneratorConfig) where
  unfoldable pub job_of : Monitor → Text
  job_of m = codes "mon_" ++ sanitize_id (show_id m.id)

  unfoldable pub module_of : Monitor → Text
  module_of m = codes "beacon_" ++ sanitize_id (show_id m.id)

  unfoldable pub build_scrape : Monitor → Text → Scrape
  build_scrape m probe_target = record {
    job_name = job_of m;
    metrics_path = codes "/probe";
    scrape_interval = seconds m.interval_seconds;
    scrape_timeout = seconds m.timeout_seconds;
    params = (codes "module", module_of m ∷ []) ∷ (codes "target", probe_target ∷ []) ∷ [];
    targets = cfg.blackbox_addr ∷ [];
    labels =
        (codes "monitor_id", show_id m.id)
        ∷ (codes "monitor_name", m.name)
        ∷ (codes "monitor_type", kind_text m.kind)
        ∷ (codes "project_id", show_id m.project)
        ∷ (codes "org_id", show_id m.org)
        ∷ (codes "instance", m.target)
        ∷ [];
  }

  abbrev probe : Monitor → Option (Module × Text) → Artifacts → Generated
  probe m none a = failed m.id
  probe m (some (built, target)) a = generated (record {
    modules = put (module_of m) built a.modules;
    scrapes = a.scrapes ++ (build_scrape m target ∷ []);
    rules = a.rules ++ build_rules show_id m;
  })

  abbrev add_for : Kind → Monitor → Artifacts → Generated
  add_for heartbeat m a = generated (record a { rules = a.rules ++ build_rules show_id m })
  add_for github_actions m a = generated a
  add_for _ m a = probe m (build_module cfg m) a

  -- The body of the loop.
  unfoldable pub add_monitor : Monitor → Artifacts → Generated
  add_monitor m a = add_for m.kind m a

  abbrev pub continue_with : Generated → (Artifacts → Generated) → Generated
  continue_with (failed id) f = failed id
  continue_with (generated a) f = f a

  unfoldable pub add_all : List Monitor → Artifacts → Generated
  add_all [] a = generated a
  add_all (m ∷ ms) a = continue_with (add_monitor m a) (add_all ms)

  unfoldable pub generate : List Monitor → Generated
  generate ms = add_all ms (record { modules = []; scrapes = []; rules = [] })
