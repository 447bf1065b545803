-- ===== src/Auth/Letters.antt =====
-- The letters about an account: sendVerification and sendWelcome of
-- backend/internal/domain/auth/service.go. A letter is sent off the request path; here it is handed to
-- the relay where its job is started, and recorded as the job records it, sent or not.
use beaconpulse.Text.{Text, codes}
use beaconpulse.Auth.Names.{query_escape}
use beaconpulse.Auth.Sessions.{user_entry}
use beaconpulse.Auth.Policy.{EmailPolicy}
use beaconpulse.Prelude.{
  false, ◌||◌, not, true, ◌++◌, Bool, Option, String, ◌∷◌, ℕ, none, some, if◌then◌else◌,
}
use beaconpulse.World.{pure, record_audit, M, ok, World, ◌>>◌}
use beaconpulse.Role.{owner, Role}
use beaconpulse.Auth.{issue_verify_token, email_verified, TokenManager, User}
use beaconpulse.Auth.Store.{Accounts, Mail}

-- An identity as the provider's verifier returns it; Apple's carries no name.
pub record Identity : Type 0 where
  pub subject : Text
  pub email : Text
  pub email_verified : Bool
  pub name : Text

-- What the service is built with; no mailer, no letters, and no verifier, no sign-in of its kind.
pub record Services : Type 0 where
  pub manager : TokenManager
  pub policy : Option EmailPolicy
  pub google : Option (Text → Option Identity)
  pub apple : Option (Text → Option Identity)
  pub has_mailer : Bool
  pub base_url : Text

abbrev handed : Mail → World Accounts → World Accounts
handed letter w = record w { tables = record w.tables { outbox = letter ∷ w.tables.outbox } }

unfoldable pub hand_over : Mail → M Accounts (Unit {0})
hand_over letter w = (ok tt, handed letter w)

unfoldable pub post : String → String → User → Text → M Accounts (Unit {0})
post subject action u link = do
  hand_over (record { subject = subject; to = u.email; name = u.name; link = link })
  record_audit (user_entry action u)

abbrev is_owner : Role → Bool
is_owner owner = true
is_owner _ = false

module _ (s : Services) (now : ℕ) where
  abbrev pub link_with : String → Text → Text
  link_with path token = s.base_url ++ (codes path ++ query_escape token)

  -- 72 hours.
  abbrev verify_ttl : ℕ
  verify_ttl = 259200

  unfoldable pub post_verification : User → Option Text → M Accounts (Unit {0})
  post_verification u none = pure tt
  post_verification u (some token) =
      post "verify your email" "email.verify_sent" u (link_with "/verify-email?token=" token)

  unfoldable pub send_verification : ℕ → User → M Accounts (Unit {0})
  send_verification id u =
      if not s.has_mailer || email_verified u
      then pure tt
      else post_verification u (issue_verify_token s.manager now id u verify_ttl)

  unfoldable pub send_welcome : User → M Accounts (Unit {0})
  send_welcome u =
      if not s.has_mailer || not (is_owner u.role)
      then pure tt
      else post "welcome" "email.welcome_sent" u (s.base_url ++ codes "/billing")
