-- ===== src/Secrets/Codes.antt =====
-- A recovery code is typed back as it was printed.
use mathlib.Core.List.{reverse, reverse-cons, reverse-reverse}
use log_monitor_tenex.Prelude.{
  all-append, ℕ, zero, suc, ◌<◌, Text, Bool, true, false, not, List, [], ◌∷◌, ◌≡◌, refl, ◌∙◌, ap,
  arith, ◌==◌, ◌&&◌, ◌||◌, leb, all, length, map, take, keep_if, Bool-cases, inl, inr, ==_iff,
  to_upper, trim_space, trim, trim_left, is_space,
}
use log_monitor_tenex.Bytes.{IsBytes}
use log_monitor_tenex.Bytes.Base32.{encode, quintets, quintets-all, is_quintet, char_at}
use log_monitor_tenex.Handlers.Mfa.{normalize_recovery_code}
use log_monitor_tenex.Secrets.{printed_code, code_alphabet, seven, skip}

-- The characters of a code: capitals but I, L and O, digits but 0 and 1, and the dash.
abbrev pub is_code_char : ℕ → Bool
is_code_char c =
    (leb b'A' c && leb c b'Z' && not (c == b'I' || c == b'L' || c == b'O'))
    || (leb b'2' c && leb c b'9')
    || c == b'-'

-- All 32 characters of the alphabet, the mark replaced.
table_below : ℕ → Bool
table_below zero = true
table_below (suc n) = is_code_char (seven (char_at code_alphabet n)) && table_below n

table-checked : table_below 32 ≡ true
unfolding table_below char_at
table-checked = refl

table-at :
    (k n : ℕ) → table_below k ≡ true → n < k → is_code_char (seven (char_at code_alphabet n)) ≡ true
unfolding table_below
table-at zero n h lt = absurd (omega (arith, lt))
table-at (suc k) n h lt = elim (Bool-cases (n == k)) [
  | inl e ↦ let same : n ≡ k = (==_iff n k).0 e in rw same (ground arith)
  | inr e ↦ table-at k n (ground arith) (ground (arith, e))
]

map-is_code_char :
    (ns : List ℕ)
    → all is_quintet ns ≡ true
    → all is_code_char (map seven (map (char_at code_alphabet) ns)) ≡ true
map-is_code_char [] h = refl
map-is_code_char (n ∷ ns) h =
    rw (table-at 32 n table-checked (ground arith), map-is_code_char ns (ground arith)) refl

-- Nothing is trimmed from a text without a character of the set.
module _ (p : ℕ → Bool) where
  abbrev is_other : ℕ → Bool
  is_other c = not (p c)

  trim_left-none : (s : Text) → all is_other s ≡ true → trim_left p s ≡ s
  unfolding trim_left
  trim_left-none [] h = refl
  trim_left-none (c ∷ s) h = ground arith

  all-reverse : (s : Text) → all is_other s ≡ true → all is_other (reverse s) ≡ true
  all-reverse [] h = refl
  all-reverse (c ∷ s) h =
      let first : all is_other (c ∷ []) ≡ true = ground arith in
      rw (reverse-cons c s)
        (all-append is_other (reverse s) (c ∷ []) (all-reverse s (ground arith)) first)

  trim-none : (s : Text) → all is_other s ≡ true → trim p s ≡ s
  unfolding trim
  trim-none s h =
      rw (trim_left-none s h, trim_left-none (reverse s) (all-reverse s h)) (reverse-reverse s)

-- A letter of a code, in either case, is no space.
is_code_char-to_upper : (c : ℕ) → is_code_char (to_upper c) ≡ true → is_space c ≡ false
unfolding to_upper is_space
is_code_char-to_upper c h = ground arith

no_spaces :
    (s : Text) → all is_code_char (map to_upper s) ≡ true → all (λ c. not (is_space c)) s ≡ true
no_spaces [] h = refl
no_spaces (c ∷ s) h =
    let solid = is_code_char-to_upper c (ground arith) in
    rw (solid, no_spaces s (ground arith)) refl

all-take : (p : ℕ → Bool) (n : ℕ) (s : Text) → all p s ≡ true → all p (take n s) ≡ true
all-take p zero s h = refl
all-take p (suc n) [] h = refl
all-take p (suc n) (c ∷ s) h = ground (arith, all-take p n s)

all-skip : (p : ℕ → Bool) (n : ℕ) (s : Text) → all p s ≡ true → all p (skip n s) ≡ true
all-skip p zero s h = h
all-skip p (suc n) [] h = refl
all-skip p (suc n) (c ∷ s) h = all-skip p n s (ground arith)

printed_code-all : (bytes : Text) → IsBytes bytes → all is_code_char (printed_code bytes) ≡ true
unfolding printed_code encode
printed_code-all bytes h =
    let s = map seven (map (char_at code_alphabet) (quintets bytes)) in
    let whole = map-is_code_char (quintets bytes) (quintets-all bytes h) in
    let second : all is_code_char (b'-' ∷ take 8 (skip 8 s)) ≡ true =
      all-take is_code_char 8 (skip 8 s) (all-skip is_code_char 8 s whole) in
    all-append is_code_char (take 8 s) (b'-' ∷ take 8 (skip 8 s)) (all-take is_code_char 8 s whole)
      second

length-printed_code : (bytes : Text) → length bytes ≡ 10 → length (printed_code bytes) ≡ 17
unfolding printed_code encode quintets
length-printed_code (a ∷ b ∷ c ∷ d ∷ e ∷ f ∷ g ∷ h ∷ i ∷ j ∷ []) size = refl
length-printed_code _ size = absurd (omega (arith, size))

-- What a user types for a code, with spaces anywhere and letters of either case.
abbrev pub IsTyped : Text → Text → Type 0
IsTyped code typed = map to_upper (keep_if (λ c. not (c == 32)) typed) ≡ code

-- A code of ten random bytes has seventeen characters, all of them capitals or digits that are not
-- mistaken for one another, or the dash; and however it is typed, with spaces anywhere and letters
-- of either case, it is normalised to what was printed.
pub printed_code_lem :
    (bytes typed : Text)
    → IsBytes bytes
    → length bytes ≡ 10
    → IsTyped (printed_code bytes) typed
    → (all is_code_char (printed_code bytes) ≡ true)
      × (length (printed_code bytes) ≡ 17)
      × (normalize_recovery_code typed ≡ printed_code bytes)
unfolding normalize_recovery_code trim_space
printed_code_lem bytes typed h size t =
    let bare = keep_if (λ c. not (c == 32)) typed in
    let solid = no_spaces bare (rw t (printed_code-all bytes h)) in
    (
      printed_code-all bytes h,
      length-printed_code bytes size,
      ap (map to_upper) (trim-none is_space bare solid) ∙ t,
    )
