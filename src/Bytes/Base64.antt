-- ===== src/Bytes/Base64.antt =====
-- encoding/base64, `RawStdEncoding`: the standard alphabet without padding.
use log_monitor_tenex.Prelude.{
  ℕ, ◌+◌, ◌-◌, ◌*◌, ◌/◌, ◌%◌, ◌<◌, Text, Bool, true, false, not, Option, none, some, List, [], ◌∷◌,
  ◌≡◌, refl, ◌&&◌, ◌||◌, ◌==◌, arith, ltb, leb, all, keep_if, map, if◌then◌else◌, contains, any,
}
use log_monitor_tenex.Bytes.{IsBytes}

-- The character of six bits.
unfoldable pub sextet_char : ℕ → ℕ
sextet_char n =
    if ltb n 26
    then n + 65
    else if ltb n 52
    then n + 71
    else if ltb n 62
    then n - 4
    else if n == 62
    then b'+'
    else b'/'

unfoldable pub char_sextet : ℕ → Option ℕ
char_sextet c =
    if leb b'A' c && leb c b'Z'
    then some (c - 65)
    else if leb b'a' c && leb c b'z'
    then some (c - 71)
    else if leb b'0' c && leb c b'9'
    then some (c + 4)
    else if c == b'+'
    then some 62
    else if c == b'/'
    then some 63
    else none

-- The groups of six bits, the last filled up with zeros.
unfoldable pub sextets : Text → List ℕ
sextets [] = []
sextets (a ∷ []) = a / 4 ∷ a % 4 * 16 ∷ []
sextets (a ∷ b ∷ []) = a / 4 ∷ (a % 4 * 16 + b / 16) ∷ b % 16 * 4 ∷ []
sextets (a ∷ b ∷ c ∷ s) = a / 4 ∷ (a % 4 * 16 + b / 16) ∷ (b % 16 * 4 + c / 64) ∷ c % 64 ∷ sextets s

abbrev put_three : ℕ → ℕ → ℕ → Option Text → Option Text
put_three a b c none = none
put_three a b c (some s) = some (a ∷ b ∷ c ∷ s)

-- The bytes of such groups; a single group at the end holds no byte.
unfoldable pub regrouped : List ℕ → Option Text
regrouped [] = some []
regrouped (a ∷ []) = none
regrouped (a ∷ b ∷ []) = some ((a * 4 + b / 16) ∷ [])
regrouped (a ∷ b ∷ c ∷ []) = some ((a * 4 + b / 16) ∷ (b % 16 * 16 + c / 4) ∷ [])
regrouped (a ∷ b ∷ c ∷ d ∷ s) =
    put_three (a * 4 + b / 16) (b % 16 * 16 + c / 4) (c % 4 * 64 + d) (regrouped s)

abbrev put_first : Option ℕ → Option (List ℕ) → Option (List ℕ)
put_first none ns = none
put_first (some n) none = none
put_first (some n) (some ns) = some (n ∷ ns)

unfoldable pub read_sextets : Text → Option (List ℕ)
unfolding char_sextet
read_sextets [] = some []
read_sextets (c ∷ s) = put_first (char_sextet c) (read_sextets s)

-- The decoder passes over line ends.
abbrev is_no_line_end : ℕ → Bool
is_no_line_end c = not (c == 10 || c == 13)

abbrev regroup : Option (List ℕ) → Option Text
regroup none = none
regroup (some ns) = regrouped ns

-- `EncodeToString` and `DecodeString`
unfoldable pub encode : Text → Text
unfolding sextets sextet_char
encode s = map sextet_char (sextets s)

unfoldable pub decode : Text → Option Text
unfolding read_sextets regrouped
decode s = regroup (read_sextets (keep_if is_no_line_end s))

abbrev is_sextet : ℕ → Bool
is_sextet n = ltb n 64

sextets-all : (s : Text) → IsBytes s → all is_sextet (sextets s) ≡ true
unfolding sextets
sextets-all [] h = refl
sextets-all (a ∷ []) h = ground arith
sextets-all (a ∷ b ∷ []) h = ground arith
sextets-all (a ∷ b ∷ c ∷ s) h = ground (arith, sextets-all s)

first_byte : (a b : ℕ) → b < 256 → a / 4 * 4 + (a % 4 * 16 + b / 16) / 16 ≡ a
first_byte a b h = omega arith

second_byte :
    (a b c : ℕ)
    → b < 256
    → c < 256
    → (a % 4 * 16 + b / 16) % 16 * 16 + (b % 16 * 4 + c / 64) / 4 ≡ b
second_byte a b c h k = omega arith

third_byte : (b c : ℕ) → c < 256 → (b % 16 * 4 + c / 64) % 4 * 64 + c % 64 ≡ c
third_byte b c h = omega arith

regrouped-sextets : (s : Text) → IsBytes s → regrouped (sextets s) ≡ some s
unfolding sextets regrouped
regrouped-sextets [] h = refl
regrouped-sextets (a ∷ []) h = ground arith
regrouped-sextets (a ∷ b ∷ []) h = ground arith
regrouped-sextets (a ∷ b ∷ c ∷ s) h =
    let hb : b < 256 = ground arith in
    let hc : c < 256 = ground arith in
    let hs : IsBytes s = ground arith in
    rw (regrouped-sextets s hs)
      (λ i. some (first_byte a b hb i ∷ second_byte a b c hb hc i ∷ third_byte b c hc i ∷ s))

sextet_char-kept : (n : ℕ) → is_no_line_end (sextet_char n) ≡ true
unfolding sextet_char
sextet_char-kept n = ground arith

char_sextet-sextet_char : (n : ℕ) → n < 64 → char_sextet (sextet_char n) ≡ some n
unfolding sextet_char char_sextet
char_sextet-sextet_char n h = ground arith

module _ (n : ℕ) (ns : List ℕ) where
  head-sextet : all is_sextet (n ∷ ns) ≡ true → n < 64
  head-sextet h = ground arith

  tail-sextets : all is_sextet (n ∷ ns) ≡ true → all is_sextet ns ≡ true
  tail-sextets h = ground arith

read_sextets-map :
    (ns : List ℕ)
    → all is_sextet ns ≡ true
    → read_sextets (keep_if is_no_line_end (map sextet_char ns)) ≡ some ns
unfolding read_sextets
read_sextets-map [] h = refl
read_sextets-map (n ∷ ns) h =
    rw
      (
        sextet_char-kept n,
        char_sextet-sextet_char n (head-sextet n ns h),
        read_sextets-map ns (tail-sextets n ns h),
      )
      refl

-- What was encoded is decoded, byte for byte.
pub decode-encode : (s : Text) → IsBytes s → decode (encode s) ≡ some s
unfolding decode encode
decode-encode s h = rw (read_sextets-map (sextets s) (sextets-all s h)) (regrouped-sextets s h)

-- No encoded text has a dollar sign.
sextet_char-dollar : (n : ℕ) → n < 64 → (sextet_char n == b'$') ≡ false
unfolding sextet_char
sextet_char-dollar n h = ground arith

no_dollar :
    (ns : List ℕ) → all is_sextet ns ≡ true → any (λ c. c == b'$') (map sextet_char ns) ≡ false
no_dollar [] h = refl
no_dollar (n ∷ ns) h =
    rw (sextet_char-dollar n (head-sextet n ns h), no_dollar ns (tail-sextets n ns h)) refl

pub encode-dollar : (s : Text) → IsBytes s → contains b'$' (encode s) ≡ false
unfolding encode contains
encode-dollar s h = no_dollar (sextets s) (sextets-all s h)
