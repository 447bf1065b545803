-- ===== src/Role.antt =====
-- Roles and sessions: backend/internal/domain/auth/user.go.
use beaconpulse.Prelude.{ℕ, Bool, true, false, ◌&&◌, Option, ltb, ◌≡◌, arith, not, is_some}
use beaconpulse.Text.{Text}

-- auth.Role; `other` is a string that names no role.
pub data Role : Type 0 where
  owner admin member viewer : Role
  other : Text → Role

abbrev pub valid : Role → Bool
valid (other _) = false
valid _ = true

abbrev pub can_write : Role → Bool
can_write owner = true
can_write admin = true
can_write member = true
can_write _ = false

abbrev pub can_administer : Role → Bool
can_administer owner = true
can_administer admin = true
can_administer _ = false

-- auth.RefreshToken; times are seconds.
pub record RefreshToken : Type 0 where
  pub id : ℕ
  pub user : ℕ
  pub token_hash : Text
  pub expires_at : ℕ
  pub revoked_at : Option ℕ

unfoldable pub is_usable : RefreshToken → ℕ → Bool
is_usable t now = not (is_some t.revoked_at) && ltb now t.expires_at

-- Who administers may write, and only the four roles may do either.
pub can_administer-can_write : (r : Role) → can_administer r ≡ true → can_write r ≡ true
can_administer-can_write r h = ground arith
