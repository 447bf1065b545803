-- ===== src/Plan/Resolution.antt =====
-- Which plan applies, and with which limits.
use beaconpulse.Prelude.{
  ℕ, ◌<◌, ◌≡◌, ◌↔◌, true, false, Bool, arith, ◌||◌, ◌&&◌, Bool-cases, inl, inr, ltb,
}
use beaconpulse.Text.{Text}
use beaconpulse.Plan.{
  Plan, free, pro, pay_as_you_go, Live, is_admin, is_granted, is_paid_tier, effective, resolve,
}

-- Why an organization has a plan.
pub data Reason (l : Live) (subscribed : Plan) (active : Bool) (credit : ℕ) (email : Text)
    (p : Plan) : Type 0 where
  operator : is_admin l email ≡ true → p ≡ pro → Reason l subscribed active credit email p
  grant : is_granted l email ≡ true → p ≡ pro → Reason l subscribed active credit email p
  subscription :
      active ≡ true
      → is_paid_tier subscribed ≡ true
      → is_admin l email || is_granted l email ≡ false
      → p ≡ subscribed
      → Reason l subscribed active credit email p
  credit_left :
      0 < credit
      → active && is_paid_tier subscribed ≡ false
      → is_admin l email || is_granted l email ≡ false
      → p ≡ pay_as_you_go
      → Reason l subscribed active credit email p
  nothing :
      credit ≡ 0
      → active && is_paid_tier subscribed ≡ false
      → is_admin l email || is_granted l email ≡ false
      → p ≡ free
      → Reason l subscribed active credit email p

resolve-Reason :
    (l : Live) (subscribed : Plan) (active : Bool) (credit : ℕ) (email : Text)
    → Reason l subscribed active credit email (resolve l subscribed active credit email)
unfolding resolve effective
resolve-Reason l subscribed active credit email = elim (Bool-cases (is_admin l email)) [
  | inl e ↦ operator e (rw e)
  | inr e ↦ elim (Bool-cases (is_granted l email)) [
    | inl g ↦ grant g (rw (e, g))
    | inr g ↦ elim (Bool-cases (active && is_paid_tier subscribed)) [
      | inl s ↦ subscription (ground arith) (ground arith) (rw (e, g)) (rw (e, g, s))
      | inr s ↦ elim (Bool-cases (ltb 0 credit)) [
        | inl c ↦ credit_left (ground arith) s (rw (e, g)) (rw (e, g, s, c))
        | inr c ↦ nothing (ground arith) s (rw (e, g)) (rw (e, g, s, c))
      ]
    ]
  ]
]

resolve_of_Reason :
    {l : Live} {subscribed : Plan} {active : Bool} {credit : ℕ} {email : Text} {p : Plan}
    → Reason l subscribed active credit email p
    → resolve l subscribed active credit email ≡ p
unfolding resolve effective
resolve_of_Reason (operator a e) = ground arith
resolve_of_Reason (grant g e) = ground arith
resolve_of_Reason (subscription a paid q e) = ground arith
resolve_of_Reason (credit_left c s q e) = ground arith
resolve_of_Reason (nothing c s q e) = ground arith

-- The plan that applies is p exactly when there is a reason for p: Pro for an operator or a granted
-- owner; for anyone else the subscribed Starter or Pro tier while the subscription is active,
-- otherwise pay-as-you-go while credit is left, and Free when there is none.
pub resolve-eq_iff :
    (l : Live) (subscribed : Plan) (active : Bool) (credit : ℕ) (email : Text) (p : Plan)
    → (resolve l subscribed active credit email ≡ p) ↔ Reason l subscribed active credit email p
resolve-eq_iff l subscribed active credit email p =
    (λ h. rw h at (resolve-Reason l subscribed active credit email), resolve_of_Reason)
