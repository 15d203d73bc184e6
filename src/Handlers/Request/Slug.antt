-- ===== src/Handlers/Request/Slug.antt =====
-- handlers.go, `slugify`: what a slug is made of.
use mathlib.Core.List.{reverse, reverse_aux}
use log_monitor_tenex.Prelude.{
  ℕ, Text, Bool, true, false, [], ◌∷◌, map, ◌≡◌, refl, ◌==◌, ◌||◌, arith, all, inl, inr, Bool-cases,
  trim, trim_left, to_lower,
}
use log_monitor_tenex.Handlers.Request.{is_slug_char, dashed, slugify}

-- A letter from a to z, a digit, or a dash.
abbrev pub may_be_in_slug : ℕ → Bool
may_be_in_slug c = is_slug_char c || c == b'-'

all-dashed : (in_run : Bool) (s : Text) → all may_be_in_slug (dashed in_run s) ≡ true
unfolding dashed
all-dashed in_run [] = refl
all-dashed in_run (c ∷ s) = elim (Bool-cases (is_slug_char c)) [
  | inl letter ↦ rw letter (ground (arith, letter, all-dashed false s))
  | inr other ↦ ground (arith, all-dashed true s)
]

module _ (q : ℕ → Bool) where
  all-reverse_aux : (s t : Text) → all q s ≡ true → all q t ≡ true → all q (reverse_aux s t) ≡ true
  all-reverse_aux [] t hs ht = ht
  all-reverse_aux (c ∷ s) t hs ht = all-reverse_aux s (c ∷ t) (ground arith) (ground arith)

  all-reverse : (s : Text) → all q s ≡ true → all q (reverse s) ≡ true
  all-reverse s h = all-reverse_aux s [] h refl

  all-trim_left : (p : ℕ → Bool) (s : Text) → all q s ≡ true → all q (trim_left p s) ≡ true
  unfolding trim_left
  all-trim_left p [] h = refl
  all-trim_left p (c ∷ s) h = elim (Bool-cases (p c)) [
    | inl gone ↦ let rest = all-trim_left p s (ground arith) in ground arith
    | inr kept ↦ ground arith
  ]

  all-trim : (p : ℕ → Bool) (s : Text) → all q s ≡ true → all q (trim p s) ≡ true
  unfolding trim
  all-trim p s h = all-reverse _ (all-trim_left p _ (all-reverse _ (all-trim_left p s h)))

-- A slug has letters from a to z, digits and dashes only, whatever the name of the organization.
pub slugify_charset : (name : Text) → all may_be_in_slug (slugify name) ≡ true
unfolding slugify
slugify_charset name =
    all-trim may_be_in_slug (λ c. c == b'-') (dashed false (map to_lower name))
      (all-dashed false (map to_lower name))
