-- ===== src/Bytes/Base32.antt =====
-- encoding/base32 without padding, over an alphabet of its own.
use log_monitor_tenex.Prelude.{
  ℕ, ◌+◌, ◌*◌, ◌/◌, ◌%◌, Text, Bool, true, Option, none, some, List, [], ◌∷◌, ◌≡◌, refl, arith, ltb,
  all, map, get_elem?,
}
use log_monitor_tenex.Bytes.{IsBytes}

-- The groups of five bits, the last filled up with zeros.
unfoldable pub quintets : Text → List ℕ
quintets [] = []
quintets (a ∷ []) = a / 8 ∷ a % 8 * 4 ∷ []
quintets (a ∷ b ∷ []) = a / 8 ∷ (a % 8 * 4 + b / 64) ∷ b / 2 % 32 ∷ b % 2 * 16 ∷ []
quintets (a ∷ b ∷ c ∷ []) =
    a / 8 ∷ (a % 8 * 4 + b / 64) ∷ b / 2 % 32 ∷ (b % 2 * 16 + c / 16) ∷ c % 16 * 2 ∷ []
quintets (a ∷ b ∷ c ∷ d ∷ []) =
    a / 8
    ∷ (a % 8 * 4 + b / 64)
    ∷ b / 2 % 32
    ∷ (b % 2 * 16 + c / 16)
    ∷ (c % 16 * 2 + d / 128)
    ∷ d / 4 % 32
    ∷ d % 4 * 8
    ∷ []
quintets (a ∷ b ∷ c ∷ d ∷ e ∷ s) =
    a / 8
    ∷ (a % 8 * 4 + b / 64)
    ∷ b / 2 % 32
    ∷ (b % 2 * 16 + c / 16)
    ∷ (c % 16 * 2 + d / 128)
    ∷ d / 4 % 32
    ∷ (d % 4 * 8 + e / 32)
    ∷ e % 32
    ∷ quintets s

abbrev pub is_quintet : ℕ → Bool
is_quintet n = ltb n 32

abbrev char_or_zero : Option ℕ → ℕ
char_or_zero none = 0
char_or_zero (some c) = c

-- The character of five bits in an alphabet of 32.
unfoldable pub char_at : Text → ℕ → ℕ
char_at alphabet n = char_or_zero (get_elem? alphabet n)

-- `EncodeToString`
unfoldable pub encode : Text → Text → Text
unfolding quintets char_at
encode alphabet s = map (char_at alphabet) (quintets s)

pub quintets-all : (s : Text) → IsBytes s → all is_quintet (quintets s) ≡ true
unfolding quintets
quintets-all [] h = refl
quintets-all (a ∷ []) h = ground arith
quintets-all (a ∷ b ∷ []) h = ground arith
quintets-all (a ∷ b ∷ c ∷ []) h = ground arith
quintets-all (a ∷ b ∷ c ∷ d ∷ []) h = ground arith
quintets-all (a ∷ b ∷ c ∷ d ∷ e ∷ s) h = ground (arith, quintets-all s)
