-- ===== src/Auth/Stability.antt =====
-- What the helpers of the sign-in service keep, and with them every call of it: the predicates that
-- each statement keeps.
pub mod Calls
use beaconpulse.Auth.Letters.{Identity}
use beaconpulse.Auth.Policy.{check, EmailPolicy}
use beaconpulse.Auth.Names.{next_candidate}
use beaconpulse.Text.{Text}
use beaconpulse.Auth.Signup.{of_check, verify_with, vet_with, allocate_slug}
use beaconpulse.Auth.Sessions.{look_up, of_option, on_error, on_found}
use beaconpulse.Prelude.{
  String, Option, ℕ, ◌≡◌, refl, none, some, [], ◌∷◌, inl, inr, ◌⊎◌, true, false, zero, suc, not,
}
use beaconpulse.World.{AppError, Code, Result, M, World, ok, err, ◌>>=◌, ◌>>◌, not_found}
use beaconpulse.World.Keeping.{
  keeps_rules, Keeps-pure, Keeps-db, Keeps-if, Keeps-best_effort, Keeps, Keeps-bind, Keeps-throw,
}
use beaconpulse.Auth.Store.{get_by_hash, get_user_by_email, get_user_by_id, slug_exists, Accounts}

module _ (P : Accounts → Type 0) where
  pub Keeps-of_option : {A : Type 0} (o : Option A) (e : AppError) → Keeps P (of_option o e)
  unfolding of_option
  Keeps-of_option none e = Keeps-throw P _ e
  Keeps-of_option (some a) e = Keeps-pure P a

  pub Keeps-on_error :
      {B : Type 0} (c : Code) (e : AppError) (missing : M Accounts B)
      → Keeps P missing
      → Keeps P (on_error c e missing)
  unfolding on_error
  Keeps-on_error not_found e missing u = u
  Keeps-on_error _ e missing u = Keeps-throw P _ e

  pub Keeps-on_found :
      {A B : Type 0} (r : Result A) (missing : M Accounts B) (k : A → M Accounts B)
      → Keeps P missing
      → ((a : A) → Keeps P (k a))
      → Keeps P (on_found r missing k)
  unfolding on_found
  Keeps-on_found (ok a) missing k u v = v a
  Keeps-on_found (err e) missing k u v = Keeps-on_error e.code e missing u

  pub Keeps-look_up :
      {A B : Type 0} (m : M Accounts A) (missing : M Accounts B) (k : A → M Accounts B)
      → Keeps P m
      → Keeps P missing
      → ((a : A) → Keeps P (k a))
      → Keeps P (look_up m missing k)
  unfolding look_up
  Keeps-look_up m missing k t u v =
      Keeps-bind P _ _ (Keeps-best_effort P m t) (λ r. Keeps-on_found r missing k u v)

  -- Reads.
  pub Keeps-get_user_by_id : (id : ℕ) → Keeps P (get_user_by_id id)
  unfolding get_user_by_id
  Keeps-get_user_by_id id = Keeps-db P _ (λ t h. h)

  pub Keeps-get_user_by_email : (email : Text) → Keeps P (get_user_by_email email)
  unfolding get_user_by_email
  Keeps-get_user_by_email email = Keeps-db P _ (λ t h. h)

  pub Keeps-get_by_hash : (hash : Text) → Keeps P (get_by_hash hash)
  unfolding get_by_hash
  Keeps-get_by_hash hash = Keeps-db P _ (λ t h. h)

  pub Keeps-slug_exists : (slug : Text) → Keeps P (slug_exists slug)
  unfolding slug_exists
  Keeps-slug_exists slug = Keeps-db P _ (λ t h. h)

  pub Keeps-allocate_slug :
      (suffix : ℕ → Text) (base : Text) (left : ℕ) (candidate : Text)
      → Keeps P (allocate_slug suffix base left candidate)
  unfolding allocate_slug
  Keeps-allocate_slug suffix base zero candidate = Keeps-throw P _ _
  Keeps-allocate_slug suffix base (suc left) candidate =
      Keeps-bind P _ _ (Keeps-slug_exists candidate) (λ taken.
        Keeps-if P taken _ _
          (Keeps-allocate_slug suffix base left (next_candidate base (suffix left)))
          (Keeps-pure P candidate))

  Keeps-of_check : (checked : Option AppError) → Keeps P (of_check checked)
  unfolding of_check
  Keeps-of_check none = search keeps_rules
  Keeps-of_check (some e) = search keeps_rules

  pub Keeps-vet_with :
      (policy : Option EmailPolicy) (email : Text) → Keeps P (vet_with policy email)
  unfolding vet_with
  Keeps-vet_with none email = search keeps_rules
  Keeps-vet_with (some p) email = Keeps-of_check (check p email)

  pub Keeps-verify_with :
      (verify : Option (Text → Option Identity)) (token : Text) (off wrong : String)
      → Keeps P (verify_with verify token off wrong)
  unfolding verify_with
  Keeps-verify_with none token off wrong = search keeps_rules
  Keeps-verify_with (some verify) token off wrong = Keeps-of_option _ _

pub ruleset lookup_rules = (
  Keeps-of_option, Keeps-look_up, Keeps-get_user_by_id, Keeps-get_user_by_email, Keeps-get_by_hash,
  Keeps-allocate_slug, Keeps-vet_with, Keeps-verify_with,
)
