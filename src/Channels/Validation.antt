-- ===== src/Channels/Validation.antt =====
-- validateChannel of backend/internal/domain/notification/service.go: the shape of a channel's settings,
-- checked when it is written.
use beaconpulse.World.{validation_error, AppError}
use beaconpulse.Prelude.{
  all, ◌-◌, any, leb, ◌+◌, Bool, List, Option, String, ◌*◌, ℕ, none, some, [], ◌∷◌, false,
  if◌then◌else◌, ◌==◌, ◌&&◌, not,
}
use beaconpulse.Dispatch.{ChannelType, telegram, slack, email, webhook}
use beaconpulse.Text.{codes, to_lower, to_upper, has_suffix, is_empty, text_eq, trim_space, Text}

-- What url.Parse finds.
pub record Url : Type 0 where
  pub scheme : Text
  pub host : Text

-- `config[key]`, empty if there is none.
unfoldable pub setting : Text → List (Text × Text) → Text
setting key [] = []
setting key ((k, v) ∷ rest) = let other = setting key rest in if text_eq k key then v else other

abbrev trimmed : String → List (Text × Text) → Text
trimmed key config = trim_space (setting (codes key) config)

abbrev refused : String → String → Option AppError
refused field m = some (validation_error m (field ∷ []))

-- The first refusal.
unfoldable pub first_of : List (Bool × String × String) → Option AppError
first_of [] = none
first_of ((bad, field, m) ∷ rest) =
    let later = first_of rest in if bad then refused field m else later

abbrev is_digit : ℕ → Bool
is_digit c = leb 48 c && leb c 57

abbrev digits_value : ℕ → Text → ℕ
digits_value acc [] = acc
digits_value acc (c ∷ s) = digits_value (acc * 10 + (c - 48)) s

abbrev is_number : Text → Bool
is_number s = not (is_empty s) && all is_digit s

abbrev in_port_range : Text → Bool
in_port_range s = is_number s && leb 1 (digits_value 0 s) && leb (digits_value 0 s) 65535

-- What strconv.Atoi reads as a number from 1 to 65535: digits, after a plus sign at most.
unfoldable pub is_port : Text → Bool
is_port [] = false
is_port (c ∷ s) = if c == b'+' then in_port_range s else in_port_range (c ∷ s)

abbrev one_of : Text → List String → Bool
one_of s names = any (λ n. text_eq s (codes n)) names

unfoldable pub email_settings : List (Text × Text) → Option AppError
email_settings config =
    let port = trimmed "port" config in
    let security = to_lower (trimmed "security" config) in
    first_of (
      (is_empty (trimmed "host" config), "config.host", "Email requires an SMTP host")
      ∷ (is_empty (trimmed "from" config), "config.from", "Email requires a from address")
      ∷ (is_empty (trimmed "to" config), "config.to", "Email requires at least one recipient")
      ∷ (
        not (is_empty port) && not (is_port port),
        "config.port",
        "SMTP port must be a number between 1 and 65535",
      )
      ∷ (
        not (is_empty security) && not (one_of security ("starttls" ∷ "tls" ∷ "none" ∷ [])),
        "config.security",
        "SMTP security must be starttls, tls or none",
      )
      ∷ [])

abbrev pub is_https : Option Url → Bool
is_https none = false
is_https (some u) = text_eq u.scheme (codes "https")

abbrev is_slack_host : Option Url → Bool
is_slack_host none = false
is_slack_host (some u) = has_suffix u.host (codes "slack.com")

unfoldable pub slack_settings : Option Url → Option AppError
slack_settings u = first_of (
    (not (is_https u), "secret", "Slack requires an https incoming-webhook URL")
    ∷ (not (is_slack_host u), "secret", "that does not look like a Slack webhook URL")
    ∷ [])

abbrev is_web_url : Option Url → Bool
is_web_url none = false
is_web_url (some u) = one_of u.scheme ("https" ∷ "http" ∷ []) && not (is_empty u.host)

unfoldable pub webhook_settings : Option Url → List (Text × Text) → Option AppError
webhook_settings u config =
    let method = to_upper (trimmed "method" config) in
    first_of (
      (not (is_web_url u), "config.url", "Webhook requires a valid URL")
      ∷ (
        not (is_empty method) && not (one_of method ("POST" ∷ "PUT" ∷ [])),
        "config.method",
        "Webhook method must be POST or PUT",
      )
      ∷ [])

unfoldable pub telegram_settings : List (Text × Text) → Text → Option AppError
telegram_settings config secret = first_of (
    (is_empty (trimmed "chat_id" config), "config.chat_id", "Telegram requires a chat_id")
    ∷ (is_empty (trim_space secret), "secret", "Telegram requires a bot token")
    ∷ [])

unfoldable pub validate_channel :
    (Text → Option Url) → ChannelType → List (Text × Text) → Text → Option AppError
validate_channel parse_url telegram config secret = telegram_settings config secret
validate_channel parse_url slack config secret = slack_settings (parse_url (trim_space secret))
validate_channel parse_url webhook config secret =
    webhook_settings (parse_url (trimmed "url" config)) config
validate_channel parse_url email config secret = email_settings config
validate_channel parse_url _ config secret = none
