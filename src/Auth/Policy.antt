-- ===== src/Auth/Policy.antt =====
-- The policy on the address of a sign-up: backend/internal/domain/auth/emailpolicy.go. The resolver is
-- a parameter: the number of mail servers of a domain, none if the lookup fails.
use beaconpulse.Text.{text_eq, to_lower, codes, is_empty, after_last, Text}
use beaconpulse.Prelude.{
  any, Bool, map, not, List, Option, String, ℕ, ◌==◌, ◌∷◌, [], none, some, if◌then◌else◌,
}
use beaconpulse.World.{validation_error, AppError}

abbrev disposable_domains : List Text
disposable_domains = map codes (
    "mailinator.com" ∷ "guerrillamail.com" ∷ "10minutemail.com" ∷ "tempmail.com" ∷ "temp-mail.org"
    ∷ "throwawaymail.com" ∷ "yopmail.com" ∷ "trashmail.com" ∷ "getnada.com" ∷ "dispostable.com"
    ∷ "maildrop.cc" ∷ "fakeinbox.com" ∷ "sharklasers.com" ∷ "grr.la" ∷ "spam4.me" ∷ "mohmal.com"
    ∷ "emailondeck.com" ∷ "tempr.email" ∷ "mintemail.com" ∷ "mailnesia.com" ∷ [])

unfoldable pub is_disposable : Text → Bool
is_disposable domain = any (text_eq domain) disposable_domains

pub record EmailPolicy : Type 0 where
  pub lookup_mx : Text → Option ℕ
  pub enabled : Bool

abbrev email_error : String → AppError
email_error m = validation_error m ("email" ∷ [])

-- The lookup: an error of the resolver lets the address pass.
unfoldable pub check_servers : Option ℕ → Option AppError
check_servers none = none
check_servers (some n) =
    if n == 0 then some (email_error "that email domain cannot receive mail") else none

unfoldable pub check_domain : EmailPolicy → Text → Option AppError
check_domain p domain =
    if is_disposable domain
    then some (email_error "that email provider is not accepted")
    else check_servers (p.lookup_mx domain)

-- What follows the last at sign, none if there is none or nothing follows it.
unfoldable pub mail_domain : Text → Option Text
mail_domain email = elim (after_last b'@' email) [
  | none ↦ none
  | some rest ↦ if is_empty rest then none else some (to_lower rest)
]

-- EmailPolicy.Check
unfoldable pub check : EmailPolicy → Text → Option AppError
check p email = if not p.enabled then none else elim (mail_domain email) [
  | none ↦ some (email_error "that email address is not valid")
  | some domain ↦ check_domain p domain
]
