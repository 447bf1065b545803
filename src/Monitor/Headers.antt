-- ===== src/Monitor/Headers.antt =====
-- Request headers, whose values clients only see masked: keepMaskedHeaders of
-- backend/internal/domain/monitor/rules.go.
use beaconpulse.Prelude.{
  ◌≡◌, refl, inl, inr, Bool, true, false, not, ◌&&◌, Option, none, some, [], ◌∷◌, any, all, ap, All,
  arith, Bool-cases, if◌then◌else◌,
}
use beaconpulse.Text.{Text, text_eq}
use beaconpulse.Text.Laws.{text_eq_refl}
use beaconpulse.World.{Result, ok, err, validation_error}
use beaconpulse.Monitor.{Headers, Settings, masked, redacted, header_mask}

unfoldable pub saved_value : Text → Headers → Option Text
saved_value name [] = none
saved_value name ((n, v) ∷ hs) = if text_eq n name then some v else saved_value name hs

abbrev kept_header : Headers → Text → Text → Option Text
kept_header saved name v = if text_eq v header_mask then saved_value name saved else some v

abbrev cons_header : Text → Option Text → Option Headers → Option Headers
cons_header name (some v) (some hs) = some ((name, v) ∷ hs)
cons_header name _ _ = none

unfoldable pub keep_all : Headers → Headers → Option Headers
keep_all saved [] = some []
keep_all saved ((name, v) ∷ hs) = cons_header name (kept_header saved name v) (keep_all saved hs)

abbrev kept_or_error : Option Headers → Result Headers
kept_or_error none = err (validation_error "header value missing" ("settings.headers" ∷ []))
kept_or_error (some hs) = ok hs

-- The headers with each mask replaced by the value saved under its name.
unfoldable pub keep_masked_headers : Headers → Headers → Result Headers
keep_masked_headers next saved = kept_or_error (keep_all saved next)

-- The names of a map are distinct.
abbrev pub are_distinct : Headers → Bool
are_distinct [] = true
are_distinct ((name, v) ∷ hs) = not (any (λ h. text_eq name h.0) hs) && are_distinct hs

abbrev IsSaved : Headers → Text × Text → Type 0
IsSaved saved h = saved_value (h.0) saved ≡ some (h.1)

IsSaved-cons :
    (name v : Text) (saved hs : Headers)
    → any (λ h. text_eq name h.0) hs ≡ false
    → All (IsSaved saved) hs
    → All (IsSaved ((name, v) ∷ saved)) hs
unfolding saved_value
IsSaved-cons name v saved [] h rest = tt
IsSaved-cons name v saved (x ∷ hs) h (this, rest) =
    (ground arith, IsSaved-cons name v saved hs (ground arith) rest)

IsSaved-All : (hs : Headers) → are_distinct hs ≡ true → All (IsSaved hs) hs
unfolding saved_value
IsSaved-All [] h = tt
IsSaved-All ((name, v) ∷ hs) h = (
  ground (arith, text_eq_refl name),
  IsSaved-cons name v hs hs (ground arith) (IsSaved-All hs (ground arith)),
)

keep_all-masked :
    (saved hs : Headers) → All (IsSaved saved) hs → keep_all saved (masked hs) ≡ some hs
unfolding keep_all
keep_all-masked saved [] h = refl
keep_all-masked saved ((name, v) ∷ hs) (this, rest) =
    ground (arith, this, keep_all-masked saved hs rest, text_eq_refl header_mask)

-- A client that sends back the settings as it was shown them changes no header: every mask becomes the
-- saved value again.
pub keep_masked_headers-redacted :
    (s : Settings)
    → are_distinct s.headers ≡ true
    → keep_masked_headers (redacted s).headers s.headers ≡ ok s.headers
unfolding redacted keep_masked_headers
keep_masked_headers-redacted s h =
    ap kept_or_error (keep_all-masked s.headers s.headers (IsSaved-All s.headers h))

keep_all-unmasked :
    (hs : Headers) → all (λ h. not (text_eq h.1 header_mask)) hs ≡ true → keep_all [] hs ≡ some hs
unfolding keep_all
keep_all-unmasked [] h = refl
keep_all-unmasked ((name, v) ∷ hs) h = ground (arith, keep_all-unmasked hs (ground arith))

keep_all-mask :
    (hs : Headers) → all (λ h. not (text_eq h.1 header_mask)) hs ≡ false → keep_all [] hs ≡ none
unfolding keep_all saved_value
keep_all-mask [] h = ground arith
keep_all-mask ((name, v) ∷ hs) h = elim (Bool-cases (text_eq v header_mask)) [
  | inl hit ↦ ground arith
  | inr miss ↦ ground (arith, keep_all-mask hs (ground arith))
]

-- With nothing saved, headers are taken as they are, and one mask among them refuses them all.
pub keep_masked_headers-fresh :
    (hs : Headers)
    → keep_masked_headers hs [] ≡ (
        if all (λ h. not (text_eq h.1 header_mask)) hs
        then ok hs
        else err (validation_error "header value missing" ("settings.headers" ∷ [])))
unfolding keep_masked_headers
keep_masked_headers-fresh hs = elim (Bool-cases (all (λ h. not (text_eq h.1 header_mask)) hs)) [
  | inl none_masked ↦ ground (arith, keep_all-unmasked hs none_masked)
  | inr some_masked ↦ ground (arith, keep_all-mask hs some_masked)
]
