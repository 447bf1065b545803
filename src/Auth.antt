-- ===== src/Auth.antt =====
-- Accounts and sign-in: backend/internal/domain/auth. Here are the data of user.go and the claims and
-- tokens of token.go; the children hold the statements, the policy on addresses, the use cases and
-- their laws. Signatures, hashes and random parts come from `Crypto` and `Draw`.
pub mod Names
pub mod Policy
pub mod Store
pub mod Sessions
pub mod Letters
pub mod Signup
pub mod Recovery
pub mod Histories
pub mod Spent
pub mod Stability
pub mod Rotation
pub mod Resets
pub mod Registers
pub mod Logins
mod Tests
use beaconpulse.Prelude.{is_some, not, Bool, Option, [], take, ℕ, ◌+◌, none, some, if◌then◌else◌}
use beaconpulse.Role.{Role}
use beaconpulse.Text.{is_empty, text_eq, codes, Text}

-- auth.Organization
pub record Organization : Type 0 where
  pub id : ℕ
  pub name : Text
  pub slug : Text

-- auth.User; an absent hash or subject is the empty text, as in the source.
pub record User : Type 0 where
  pub id : ℕ
  pub org : ℕ
  pub email : Text
  pub password_hash : Text
  pub google_sub : Text
  pub oidc_sub : Text
  pub name : Text
  pub role : Role
  pub is_active : Bool
  pub email_verified_at : Option ℕ
  pub last_login_at : Option ℕ
  pub created_at : ℕ

abbrev pub has_password : User → Bool
has_password u = not (is_empty u.password_hash)

abbrev pub email_verified : User → Bool
email_verified u = is_some u.email_verified_at

-- auth.Claims with the registered ones. Of an id in a string stands the id, none if it is no id.
pub record Claims : Type 0 where
  pub org : Option ℕ
  pub role : Option Role
  pub kind : Text
  pub password_fp : Text
  pub email : Text
  pub subject : Option ℕ
  pub token_id : ℕ
  pub issued_at : ℕ
  pub not_before : ℕ
  pub expires_at : ℕ
  pub issuer : Text

-- What the cryptographic libraries do with the server's secrets: signing claims, reading a signed
-- token of an issuer at a time, the keyed hash of a refresh token, SHA-256 in hexadecimal, and the hash
-- of a new password and its check, which may fail.
pub record Crypto : Type 0 where
  pub sign : Claims → Option Text
  pub parse : Text → ℕ → Text → Option Claims
  pub hmac : Text → Text
  pub sha256_hex : Text → Text
  pub hash_password : Text → Option Text
  pub check_password : Text → Text → Option Bool

pub record TokenManager : Type 0 where
  pub crypto : Crypto
  pub access_ttl : ℕ
  pub refresh_ttl : ℕ

-- What one call draws at random: ids of rows and tokens, and the bytes of a refresh token, encoded.
pub record Draw : Type 0 where
  pub access_id : ℕ
  pub proxy_id : ℕ
  pub link_id : ℕ
  pub refresh_id : ℕ
  pub refresh_text : Option Text

abbrev issuer : Text
issuer = codes "beacon"

abbrev pub access_type : Text
access_type = codes "access"

abbrev pub proxy_type : Text
proxy_type = codes "proxy"

abbrev pub reset_type : Text
reset_type = codes "pwreset"

abbrev pub verify_type : Text
verify_type = codes "verify"

-- The claims that all four tokens share.
abbrev registered : User → ℕ → ℕ → ℕ → Claims
registered u id now ttl = record {
  org = none;
  role = none;
  kind = [];
  password_fp = [];
  email = [];
  subject = some u.id;
  token_id = id;
  issued_at = now;
  not_before = now;
  expires_at = now + ttl;
  issuer = issuer;
}

abbrev principal : User → Claims → Claims
principal u c = record c { org = some u.org; role = some u.role }

-- GeneratedRefreshToken
pub record Generated : Type 0 where
  pub plaintext : Text
  pub hash : Text
  pub expires_at : ℕ

module _ (m : TokenManager) (now : ℕ) where
  unfoldable pub issue_access_token : ℕ → User → Option Text
  issue_access_token id u =
      m.crypto.sign (record (principal u (registered u id now m.access_ttl)) { kind = access_type })

  unfoldable pub issue_proxy_token : ℕ → User → Option Text
  issue_proxy_token id u =
      m.crypto.sign (record (principal u (registered u id now m.refresh_ttl)) { kind = proxy_type })

  -- The first eight bytes of the hash's digest, as sixteen hexadecimal digits.
  unfoldable pub password_fingerprint : Text → Text
  password_fingerprint hash = take 16 (m.crypto.sha256_hex hash)

  abbrev pub reset_claims : ℕ → User → ℕ → Claims
  reset_claims id u ttl = record (registered u id now ttl) {
    kind = reset_type;
    password_fp = password_fingerprint u.password_hash;
  }

  unfoldable pub issue_reset_token : ℕ → User → ℕ → Option Text
  issue_reset_token id u ttl = m.crypto.sign (reset_claims id u ttl)

  unfoldable pub issue_verify_token : ℕ → User → ℕ → Option Text
  issue_verify_token id u ttl =
      m.crypto.sign (record (registered u id now ttl) { kind = verify_type; email = u.email })

  -- parseTyped
  unfoldable pub parse_typed : Text → Text → Option Claims
  parse_typed raw want = elim (m.crypto.parse issuer now raw) [
    | none ↦ none
    | some c ↦ if text_eq c.kind want then some c else none
  ]

  -- GenerateRefreshToken
  unfoldable pub generate_refresh_token : Option Text → Option Generated
  generate_refresh_token none = none
  generate_refresh_token (some raw) =
      some (record { plaintext = raw; hash = m.crypto.hmac raw; expires_at = now + m.refresh_ttl })
