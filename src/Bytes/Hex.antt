-- ===== src/Bytes/Hex.antt =====
-- encoding/hex: two digits for each byte.
use log_monitor_tenex.Prelude.{
  ℕ, ◌+◌, ◌-◌, ◌*◌, ◌/◌, ◌%◌, ◌<◌, Text, Option, none, some, [], ◌∷◌, ◌≡◌, refl, ◌&&◌, arith, ltb,
  leb, if◌then◌else◌,
}
use log_monitor_tenex.Bytes.{IsBytes}

unfoldable pub digit : ℕ → ℕ
digit n = if ltb n 10 then n + 48 else n + 87

-- The digits may be small or capital.
unfoldable pub digit_value : ℕ → Option ℕ
digit_value c =
    if leb b'0' c && leb c b'9'
    then some (c - 48)
    else if leb b'a' c && leb c b'f'
    then some (c - 87)
    else if leb b'A' c && leb c b'F'
    then some (c - 55)
    else none

abbrev put_byte : Option ℕ → Option ℕ → Option Text → Option Text
put_byte (some a) (some b) (some s) = some ((a * 16 + b) ∷ s)
put_byte _ _ _ = none

-- `EncodeToString`
unfoldable pub encode : Text → Text
unfolding digit
encode [] = []
encode (b ∷ s) = digit (b / 16) ∷ digit (b % 16) ∷ encode s

-- `DecodeString`
unfoldable pub decode : Text → Option Text
unfolding digit_value
decode [] = some []
decode (c ∷ []) = none
decode (c ∷ d ∷ s) = put_byte (digit_value c) (digit_value d) (decode s)

digit_value-digit : (n : ℕ) → n < 16 → digit_value (digit n) ≡ some n
unfolding digit_value digit
digit_value-digit n h = ground arith

whole_byte : (b : ℕ) → b / 16 * 16 + b % 16 ≡ b
whole_byte b = omega arith

pub decode-encode : (s : Text) → IsBytes s → decode (encode s) ≡ some s
unfolding decode encode
decode-encode [] h = refl
decode-encode (b ∷ s) h =
    let hb : b < 256 = ground arith in
    let hs : IsBytes s = ground arith in
    rw
      (
        digit_value-digit (b / 16) (omega arith),
        digit_value-digit (b % 16) (omega arith),
        decode-encode s hs,
      )
      (λ i. some (whole_byte b i ∷ s))
