-- ===== src/ControlPlane/Generator/Tenancy.antt =====
-- Whom the rules that Generate of backend/internal/adapter/controlplane/generator.go makes belong to.
use beaconpulse.Text.Laws.{text_eq_refl}
use beaconpulse.ControlPlane.Generator.{
  build_module, failed, add_for, add_monitor, continue_with, generated, probe, Generated, add_all,
  generate,
}
use beaconpulse.ControlPlane.Rules.{
  warns_of_expiry, is_heartbeat, when, rule_labels, slow_rule, expiry_rule, down_rule,
  heartbeat_rule, build_rules,
}
use beaconpulse.ControlPlane.{pos, Artifacts, Module, label, Rule, GeneratorConfig}
use beaconpulse.Text.{codes, text_eq, Text}
use beaconpulse.Prelude.{
  Bool-cases, any, All, arith, all, ℕ, ◌++◌, ◌≡◌, refl, Bool, true, false, ◌&&◌, Option, none, some,
  List, [], ◌∷◌, inl, inr,
}
use beaconpulse.Prelude.Int.{ltb_ℤ}
use beaconpulse.Monitor.{Kind, heartbeat, github_actions, Monitor}

abbrev is_text : Text → Option Text → Bool
is_text s none = false
is_text s (some t) = text_eq t s

all-append :
    {A : Type 0} (p : A → Bool) (xs ys : List A) → all p (xs ++ ys) ≡ (all p xs && all p ys)
all-append p [] ys = refl
all-append p (x ∷ xs) ys = ground (arith, all-append p xs ys)

all_mono :
    {A : Type 0} (p q : A → Bool) (xs : List A)
    → ((x : A) → p x ≡ true → q x ≡ true)
    → all p xs ≡ true
    → all q xs ≡ true
all_mono p q [] h e = refl
all_mono p q (x ∷ xs) h e = ground (arith, h x, all_mono p q xs h)

module _ (show_id : ℕ → Text) (cfg : GeneratorConfig) where
  -- A rule that carries the organization and the id of a monitor.
  unfoldable pub is_about : Monitor → Rule → Bool
  is_about m r =
      is_text (show_id m.org) (label (codes "org_id") r.labels)
      && is_text (show_id m.id) (label (codes "monitor_id") r.labels)

  unfoldable pub is_attributed : List Monitor → Rule → Bool
  is_attributed ms r = any (λ m. is_about m r) ms

  labels_about :
      (m : Monitor) (severity : Text)
      → (is_text (show_id m.org) (label (codes "org_id") (rule_labels show_id m severity))
          && is_text (show_id m.id) (label (codes "monitor_id") (rule_labels show_id m severity)))
        ≡ true
  unfolding rule_labels text_eq
  labels_about m severity =
      ground (arith, text_eq_refl (show_id m.org), text_eq_refl (show_id m.id))

  about_when :
      (m : Monitor) (b : Bool) (r : Rule)
      → is_about m r ≡ true
      → all (is_about m) (when show_id b r) ≡ true
  about_when m true r h = ground arith
  about_when m false r h = refl

  about_all : (m : Monitor) → all (is_about m) (build_rules show_id m) ≡ true
  unfolding build_rules is_about heartbeat_rule down_rule expiry_rule slow_rule
  about_all m = elim (Bool-cases (is_heartbeat m.kind)) [
    | inl push ↦ ground (arith, labels_about m (codes "critical"))
    | inr pull ↦
        (let expiry = when show_id (warns_of_expiry show_id m) (expiry_rule show_id m) in
          let slow =
            when show_id (ltb_ℤ (pos 0) m.settings.response_time_warning_ms)
              (slow_rule show_id m) in
          ground (
            arith,
            labels_about m (codes "critical"),
            all-append (is_about m) expiry slow,
            about_when m (warns_of_expiry show_id m) (expiry_rule show_id m)
                (labels_about m (codes "warning")),
            about_when m (ltb_ℤ (pos 0) m.settings.response_time_warning_ms) (slow_rule show_id m)
                (labels_about m (codes "warning")),
          ))
  ]

  widened :
      (x : Monitor) (xs ms : List Monitor)
      → All (λ m. all (is_attributed xs) (build_rules show_id m) ≡ true) ms
      → All (λ m. all (is_attributed (x ∷ xs)) (build_rules show_id m) ≡ true) ms
  unfolding is_attributed
  widened x xs [] hs = tt
  widened x xs (m ∷ ms) (h, hs) = (
    all_mono (is_attributed xs) (is_attributed (x ∷ xs)) (build_rules show_id m)
        (λ r e. ground arith) h,
    widened x xs ms hs,
  )

  attributed_all :
      (ms : List Monitor) → All (λ m. all (is_attributed ms) (build_rules show_id m) ≡ true) ms
  unfolding is_attributed
  attributed_all [] = tt
  attributed_all (m ∷ ms) = (
    all_mono (is_about m) (is_attributed (m ∷ ms)) (build_rules show_id m) (λ r e. ground arith)
        (about_all m),
    widened m ms ms (attributed_all ms),
  )

  module _ (p : Rule → Bool) where
    probe-rules :
        (m : Monitor) (o : Option (Module × Text)) (a : Artifacts) {b : Artifacts}
        → probe show_id cfg m o a ≡ generated b
        → all p (build_rules show_id m) ≡ true
        → all p a.rules ≡ true
        → all p b.rules ≡ true
    probe-rules m none a e h k = ground arith
    probe-rules m (some (_, _)) a e h k =
        ground (arith, all-append p a.rules (build_rules show_id m))

    add_for-rules :
        (t : Kind) (m : Monitor) (a : Artifacts) {b : Artifacts}
        → add_for show_id cfg t m a ≡ generated b
        → all p (build_rules show_id m) ≡ true
        → all p a.rules ≡ true
        → all p b.rules ≡ true
    add_for-rules heartbeat m a e h k = ground (arith, all-append p a.rules (build_rules show_id m))
    add_for-rules github_actions m a e h k = ground arith
    add_for-rules _ m a e h k = probe-rules m (build_module cfg m) a e h k

    continue_with-rules :
        (g : Generated) (f : Artifacts → Generated) {b : Artifacts}
        → continue_with show_id cfg g f ≡ generated b
        → ((a : Artifacts) → g ≡ generated a → f a ≡ generated b → all p b.rules ≡ true)
        → all p b.rules ≡ true
    continue_with-rules (failed id) f e k = ground arith
    continue_with-rules (generated a) f e k = k a refl e

    add_all-rules :
        (ms : List Monitor) (a : Artifacts) {b : Artifacts}
        → add_all show_id cfg ms a ≡ generated b
        → All (λ m. all p (build_rules show_id m) ≡ true) ms
        → all p a.rules ≡ true
        → all p b.rules ≡ true
    unfolding add_all add_monitor
    add_all-rules [] a e hs k = ground arith
    add_all-rules (m ∷ ms) a e (h, hs) k =
        continue_with-rules (add_monitor show_id cfg m a) (add_all show_id cfg ms) e
          (λ a' e1 e2. add_all-rules ms a' e2 hs (add_for-rules m.kind m a e1 h k))

  -- Every generated rule carries the organization and the id of one of the monitors, whatever they are.
  pub generate-is_attributed :
      (ms : List Monitor) (a : Artifacts)
      → generate show_id cfg ms ≡ generated a
      → all (is_attributed ms) a.rules ≡ true
  unfolding generate
  generate-is_attributed ms a e =
      add_all-rules (is_attributed ms) ms (record { modules = []; scrapes = []; rules = [] }) e
        (attributed_all ms) refl
