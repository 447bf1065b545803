-- ===== src/Slug/Laws.antt =====
-- Every slug satisfies the database's constraint.
use mathlib.Core.List.{reverse_aux}
use beaconpulse.Prelude.{
  zero, suc, suc, ℕ, ◌+◌, ◌≤◌, ◌≡◌, ◌∙◌, sym, ap, refl, inl, inr, Bool, true, false, not, ◌&&◌,
  ◌||◌, [], ◌∷◌, reverse, arith, Bool-cases, all, length, take, leb, ltb, ◌==◌, List,
}
use beaconpulse.Text.{Text, is_empty, to_lower, trim, trim_space, drop_while}
use beaconpulse.Text.Trim.{drop_while-trim}
use beaconpulse.Slug.{is_word, hyphen, walk, shortened, make}

-- A byte that the constraint allows after the first.
abbrev pub is_slug_byte : ℕ → Bool
is_slug_byte c = leb 48 c && leb c 57 || leb 97 c && leb c 122 || c == hyphen

abbrev pub starts_well : Text → Bool
starts_well [] = false
starts_well (c ∷ s) = not (c == hyphen)

-- `^[a-z0-9][a-z0-9-]{0,62}$`
unfoldable pub is_slug : Text → Bool
is_slug s = starts_well s && all is_slug_byte s && leb (length s) 63

module _ (q : ℕ → Bool) where
  all-drop_while : (p : ℕ → Bool) (s : Text) → all q s ≡ true → all q (drop_while p s) ≡ true
  unfolding drop_while
  all-drop_while p [] h = h
  all-drop_while p (c ∷ s) h = ground (arith, all-drop_while p s (ground arith))

  all-reverse_aux : (s t : Text) → all q s ≡ true → all q t ≡ true → all q (reverse_aux s t) ≡ true
  all-reverse_aux [] t h h' = h'
  all-reverse_aux (c ∷ s) t h h' = all-reverse_aux s (c ∷ t) (ground arith) (ground arith)

  pub all-trim : (p : ℕ → Bool) (s : Text) → all q s ≡ true → all q (trim p s) ≡ true
  unfolding trim
  all-trim p s h =
      all-reverse_aux (drop_while p (reverse (drop_while p s))) []
        (all-drop_while p (reverse (drop_while p s))
          (all-reverse_aux (drop_while p s) [] (all-drop_while p s h) refl))
        refl

  pub all-take : (n : ℕ) (s : Text) → all q s ≡ true → all q (take n s) ≡ true
  all-take zero s h = refl
  all-take (suc n) [] h = refl
  all-take (suc n) (c ∷ s) h = ground (arith, all-take n s (ground arith))

pub length-take : {A : Type 0} → (n : ℕ) (s : List A) → length (take n s) ≤ n
length-take zero s = omega arith
length-take (suc n) [] = omega arith
length-take (suc n) (c ∷ s) = omega (arith, length-take n s)

length-drop_while : (p : ℕ → Bool) (s : Text) → length (drop_while p s) ≤ length s
unfolding drop_while
length-drop_while p [] = omega arith
length-drop_while p (c ∷ s) = ground (arith, length-drop_while p s)

length-reverse_aux : (s t : Text) → length (reverse_aux s t) ≡ length s + length t
length-reverse_aux [] t = omega arith
length-reverse_aux (c ∷ s) t = omega (arith, length-reverse_aux s (c ∷ t))

pub length-trim : (p : ℕ → Bool) (s : Text) → length (trim p s) ≤ length s
unfolding trim
length-trim p s =
    let u = drop_while p s in
    let d = drop_while p (reverse u) in
    omega (
      arith,
      length-reverse_aux d [],
      length-drop_while p (reverse u),
      length-reverse_aux u [],
      length-drop_while p s,
    )

-- After lowering, a letter is a small one.
abbrev is_lowered : ℕ → Bool
is_lowered c = not (leb 65 c && leb c 90)

all-to_lower : (s : Text) → all is_lowered (to_lower s) ≡ true
unfolding to_lower
all-to_lower [] = refl
all-to_lower (c ∷ s) = ground (arith, all-to_lower s)

all-walk : (a b : Bool) (s : Text) → all is_lowered s ≡ true → all is_slug_byte (walk a b s) ≡ true
unfolding walk
all-walk a b [] h = refl
all-walk a b (c ∷ s) h =
    let dash = not (is_word c) && not a && b in
    ground (arith, all-walk (not (is_word c) && (a || dash)) (b || is_word c) s (ground arith))

stays_started :
    (t : Text) → drop_while (λ c. c == hyphen) t ≡ t → is_empty t ≡ false → starts_well t ≡ true
unfolding drop_while
stays_started [] e h = ground arith
stays_started (c ∷ t) e h = elim (Bool-cases (c == hyphen)) [
  | inl hit ↦
      absurd (omega (arith, ap length (rw hit at e), length-drop_while (λ x. x == hyphen) t))
  | inr miss ↦ ground arith
]

-- A trimmed text of slug bytes is a slug unless it is empty or too long.
pub trim-is_slug :
    (s : Text)
    → all is_slug_byte s ≡ true
    → is_empty (trim (λ c. c == hyphen) s) ≡ false
    → leb (length (trim (λ c. c == hyphen) s)) 63 ≡ true
    → is_slug (trim (λ c. c == hyphen) s) ≡ true
unfolding is_slug
trim-is_slug s bytes full short =
    let cut = trim (λ c. c == hyphen) s in
    ground (
      arith,
      stays_started cut (drop_while-trim (λ c. c == hyphen) s) full,
      all-trim is_slug_byte (λ c. c == hyphen) s bytes,
    )

pub leb_of : (m n : ℕ) → m ≤ n → leb m n ≡ true
leb_of m n h = ground arith

shortened-is_slug :
    (s : Text)
    → all is_slug_byte s ≡ true
    → is_empty (shortened (trim (λ c. c == hyphen) s)) ≡ false
    → is_slug (shortened (trim (λ c. c == hyphen) s)) ≡ true
unfolding shortened
shortened-is_slug s bytes full =
    let cut = trim (λ c. c == hyphen) s in
    elim (Bool-cases (ltb 63 (length cut))) [
      | inr fits ↦ ground (arith, trim-is_slug s bytes (ground arith) (ground arith))
      | inl long ↦
          let head = take 63 cut in
          let kept =
            all-take is_slug_byte 63 cut (all-trim is_slug_byte (λ c. c == hyphen) s bytes) in
          let small : length (trim (λ c. c == hyphen) head) ≤ 63 =
            omega (arith, length-trim (λ c. c == hyphen) head, length-take 63 cut) in
          let same : shortened cut ≡ trim (λ c. c == hyphen) head = ground arith in
          ap is_slug same
          ∙ trim-is_slug head kept (ap is_empty (sym same) ∙ full) (leb_of _ 63 small)
    ]

-- Whatever the name, the slug satisfies the database's constraint, provided the fallback does.
pub make-is_slug : (s fallback : Text) → is_slug fallback ≡ true → is_slug (make s fallback) ≡ true
unfolding make
make-is_slug s fallback good =
    let out = walk false false (to_lower (trim_space s)) in
    let bytes = all-walk false false (to_lower (trim_space s)) (all-to_lower (trim_space s)) in
    elim (Bool-cases (is_empty (shortened (trim (λ c. c == hyphen) out)))) [
      | inl nothing_left ↦ ground arith
      | inr some_left ↦ ground (arith, shortened-is_slug out bytes some_left)
    ]
