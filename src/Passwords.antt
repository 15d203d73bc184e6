-- ===== src/Passwords.antt =====
-- backend/gateway/internal/auth/password.go: argon2id hashes in the PHC format. A password is the
-- text of its bytes.
pub mod RoundTrip
use log_monitor_tenex.Prelude.{
  ℕ, zero, suc, ◌+◌, ◌-◌, ◌*◌, ◌^◌, Text, codes, text_eq, Bool, true, false, not, Option, none,
  some, List, [], ◌∷◌, ◌++◌, ◌≡◌, ◌&&◌, ◌||◌, ◌==◌, ltb, leb, split, is_space, cut_prefix, length,
  if◌then◌else◌,
}
use log_monitor_tenex.Bytes.{IsBytes}
use log_monitor_tenex.Bytes.Base64.{encode, decode}

-- golang.org/x/crypto/argon2, `IDKey`: the key of a password and a salt for a number of rounds, of
-- kibibytes and of threads, in the length that is asked for.
pub record Argon : Type 0 where
  pub id_key : Text → Text → ℕ → ℕ → ℕ → ℕ → Text
  pub id_key-IsBytes :
      (password salt : Text) (time memory threads len : ℕ)
      → IsBytes (id_key password salt time memory threads len)
  pub length-id_key :
      (password salt : Text) (time memory threads len : ℕ)
      → length (id_key password salt time memory threads len) ≡ len

abbrev pub argon_time : ℕ
argon_time = 3

abbrev pub argon_memory : ℕ
argon_memory = 65536

abbrev pub argon_threads : ℕ
argon_threads = 4

abbrev pub argon_key_len : ℕ
argon_key_len = 32

-- `argon2.Version`
abbrev pub argon_version : ℕ
argon_version = 19

-- What stands before the salt, with the numbers above written out.
abbrev pub header : Text
header = codes "$argon2id$v=19$m=65536,t=3,p=4$"

-- `HashPassword`, with the sixteen random bytes, if there are any.
unfoldable pub hash_password : Argon → Option Text → Text → Option Text
hash_password argon none password = none
hash_password argon (some salt) password =
    let key = argon.id_key password salt argon_time argon_memory argon_threads argon_key_len in
    some (header ++ (encode salt ++ (b'$' ∷ encode key)))

abbrev is_digit : ℕ → Bool
is_digit c = leb b'0' c && leb c b'9'

-- The number that the digits in front say, after one that was read, and what follows.
unfoldable pub scan_digits : ℕ → Text → ℕ × Text
scan_digits n [] = (n, [])
scan_digits n (c ∷ s) =
    let rest = scan_digits (n * 10 + (c - 48)) s in if is_digit c then rest else (n, c ∷ s)

-- `SkipSpace` of fmt: a line end is an error.
unfoldable pub skip_space : Text → Option Text
unfolding is_space
skip_space [] = some []
skip_space (c ∷ s) =
    let rest = skip_space s in if c == 10 then none else if is_space c then rest else some (c ∷ s)

abbrev below : ℕ → ℕ × Text → Option (ℕ × Text)
below bound (n, s) = if ltb n bound then some (n, s) else none

abbrev scan_number : ℕ → Option Text → Option (ℕ × Text)
scan_number bound none = none
scan_number bound (some []) = none
scan_number bound (some (c ∷ s)) = if is_digit c then below bound (scan_digits 0 (c ∷ s)) else none

-- `%d` of `Sscanf` into an unsigned number below a bound.
unfoldable pub scan_uint : ℕ → Text → Option (ℕ × Text)
unfolding scan_digits skip_space
scan_uint bound s = scan_number bound (skip_space s)

abbrev unsigned : ℕ → Text → Bool × Text
unsigned c s = if c == b'-' then (true, s) else if c == b'+' then (false, s) else (false, c ∷ s)

abbrev is_version : Bool × Text → Bool
is_version (negative, s) = elim (scan_number (2 ^ 63) (some s)) [
  | none ↦ false
  | some (n, _) ↦ not negative && n == argon_version
]

abbrev signed_version : Option Text → Bool
signed_version none = false
signed_version (some []) = false
signed_version (some (c ∷ s)) = is_version (unsigned c s)

abbrev after_prefix : {A : Type 0} → Text → (Text → Option A) → Text → Option A
after_prefix p f s = elim (cut_prefix p s) [ none ↦ none | some t ↦ f t ]

-- `Sscanf` with `v=%d`, and the test on the version.
unfoldable pub right_version : Text → Bool
unfolding cut_prefix skip_space scan_digits
right_version s = elim (cut_prefix (codes "v=") s) [
  | none ↦ false
  | some t ↦ signed_version (skip_space t)
]

abbrev then_scan : {A : Type 0} → ℕ → (ℕ → Text → Option A) → Text → Option A
unfolding scan_uint
then_scan bound f s = elim (scan_uint bound s) [ none ↦ none | some (n, t) ↦ f n t ]

-- `Sscanf` with `m=%d,t=%d,p=%d` into two numbers of 32 bits and one of 8.
unfoldable pub costs : Text → Option (ℕ × ℕ × ℕ)
unfolding cut_prefix scan_uint
costs = after_prefix (codes "m=") (
    then_scan (2 ^ 32) (λ m. after_prefix (codes ",t=") (
      then_scan (2 ^ 32)
        (λ t. after_prefix (codes ",p=") (then_scan (2 ^ 8) (λ p _. some (m, t, p)))))))

abbrev compared : Argon → Text → ℕ × ℕ × ℕ → Text → Text → Bool
compared argon password (m, t, p) salt want =
    text_eq (argon.id_key password salt t m p (length want)) want

abbrev check_key : Argon → Text → Option (ℕ × ℕ × ℕ) → Option Text → Option Text → Option Bool
check_key argon password (some cost) (some salt) (some want) =
    some (compared argon password cost salt want)
check_key argon password _ _ _ = none

-- The six parts of a hash.
unfoldable pub check_parts : Argon → Text → List Text → Option Bool
unfolding right_version costs
check_parts argon password (p ∷ name ∷ version ∷ cost ∷ salt ∷ key ∷ []) =
    if text_eq name (codes "argon2id") && right_version version
    then check_key argon password (costs cost) (decode salt) (decode key)
    else none
check_parts argon password _ = none

-- `VerifyPassword`, `none` for a malformed hash. `IDKey` panics for no rounds or no threads, which
-- `Argon` does not show.
unfoldable pub verify_password : Argon → Text → Text → Option Bool
unfolding check_parts split
verify_password argon password encoded = check_parts argon password (split b'$' encoded)
