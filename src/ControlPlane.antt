-- ===== src/ControlPlane.antt =====
-- The control plane: backend/internal/adapter/controlplane and backend/internal/worker. The documents of
-- types.go stand as data, which yaml.v3 renders; the text of an id is the UUID library's.
pub mod Sorting
pub mod Capping
pub mod Rules
pub mod Generator
pub mod Files
pub mod Syncing
pub mod Workers
mod Tests
use beaconpulse.Prelude.{
  if◌then◌else◌, ℕ, suc, ◌++◌, Bool, Option, none, some, List, [], ◌∷◌, ◌/◌, ◌%◌, ◌+◌,
}
use beaconpulse.Prelude.Int.{ℤ, pos, negsuc}
use beaconpulse.Text.{text_eq, Text, codes}
use beaconpulse.Text.Decimal.{itoa}

-- A map with text for keys.
abbrev pub Labels : Type 0
Labels = List (Text × Text)

abbrev pub label : Text → Labels → Option Text
label k [] = none
label k ((name, v) ∷ ls) = if text_eq name k then some v else label k ls

-- httpProbe; its tls_config only says whether the certificate goes unchecked.
pub record HttpProbe : Type 0 where
  pub method : Text
  pub valid_status_codes : List ℤ
  pub follow_redirects : Option Bool
  pub fail_if_body_not_matches_regexp : List Text
  pub fail_if_body_matches_regexp : List Text
  pub headers : Labels
  pub body : Text
  pub insecure_skip_verify : Option Bool
  pub preferred_ip_protocol : Text

pub record DnsProbe : Type 0 where
  pub query_name : Text
  pub query_type : Text
  pub preferred_ip_protocol : Text

-- blackboxModule; a TCP and an ICMP probe hold the preferred protocol.
pub record Module : Type 0 where
  pub prober : Text
  pub timeout : Text
  pub http : Option HttpProbe
  pub tcp : Option Text
  pub icmp : Option Text
  pub dns : Option DnsProbe

-- scrapeConfig, with its one static configuration.
pub record Scrape : Type 0 where
  pub job_name : Text
  pub metrics_path : Text
  pub scrape_interval : Text
  pub scrape_timeout : Text
  pub params : List (Text × List Text)
  pub targets : List Text
  pub labels : Labels

-- alertRule; `duration` is its `for`.
pub record Rule : Type 0 where
  pub alert : Text
  pub expr : Text
  pub duration : Text
  pub labels : Labels
  pub annotations : Labels

pub record GeneratorConfig : Type 0 where
  pub blackbox_addr : Text
  pub dns_resolver : Text

-- The documents before they are rendered.
pub record Artifacts : Type 0 where
  pub modules : List (Text × Module)
  pub scrapes : List Scrape
  pub rules : List Rule

abbrev pub minus : Text
minus = codes "-"

-- `%d`
abbrev pub decimal : ℤ → Text
decimal (pos n) = itoa n
decimal (negsuc n) = minus ++ itoa (suc n)

-- `%ds`
abbrev pub seconds : ℤ → Text
seconds n = decimal n ++ codes "s"

-- `%.3f` of a number of thousandths.
abbrev pub thousandths : ℕ → Text
thousandths n =
    itoa (n / 1000)
    ++ codes "."
    ++ ((b'0' + n / 100 % 10) ∷ (b'0' + n / 10 % 10) ∷ (b'0' + n % 10) ∷ [])
