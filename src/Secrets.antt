-- ===== src/Secrets.antt =====
-- backend/gateway/internal/mfa/mfa.go: the sealing of TOTP secrets and the making of recovery codes.
pub mod Codes
pub mod Sealing
use log_monitor_tenex.Prelude.{
  ℕ, zero, suc, ◌-◌, Text, codes, Bool, true, false, not, Option, none, some, List, [], ◌∷◌, ◌++◌,
  ◌≡◌, ◌==◌, ltb, length, take, map, if◌then◌else◌,
}
use log_monitor_tenex.Bytes.Base32.{encode}

-- crypto/aes and crypto/cipher, AES-GCM with a key of 32 bytes: what was sealed with a key and a
-- nonce is opened with them.
pub record Aead : Type 0 where
  pub seal : Text → Text → Text → Text
  pub open_sealed : Text → Text → Text → Option Text
  pub open_sealed-seal :
      (key nonce secret : Text) → open_sealed key nonce (seal key nonce secret) ≡ some secret

-- `NonceSize`
abbrev pub nonce_size : ℕ
nonce_size = 12

abbrev pub skip {ℓ} : {A : Type ℓ} → ℕ → List A → List A
skip zero xs = xs
skip (suc n) [] = []
skip (suc n) (x ∷ xs) = skip n xs

-- `Encrypt`, with the random bytes of the nonce, if there are any.
unfoldable pub encrypt : Aead → Option Text → Text → Text → Option Text
encrypt aead none secret key = none
encrypt aead (some nonce) secret key =
    if not (length key == 32) then none else some (nonce ++ aead.seal key nonce secret)

-- `Decrypt`
unfoldable pub decrypt : Aead → Text → Text → Option Text
decrypt aead sealed key =
    if not (length key == 32)
    then none
    else if ltb (length sealed) nonce_size
    then none
    else aead.open_sealed key (take nonce_size sealed) (skip nonce_size sealed)

abbrev pub code_alphabet : Text
code_alphabet = codes "ABCDEFGHJKMNPQRSTUVWXYZ23456789!"

-- `strings.ReplaceAll(s, "!", "7")`
abbrev pub seven : ℕ → ℕ
seven c = if c == b'!' then b'7' else c

-- A recovery code of ten random bytes: two halves of eight characters.
unfoldable pub printed_code : Text → Text
unfolding encode
printed_code bytes =
    let s = map seven (encode code_alphabet bytes) in take 8 s ++ (b'-' ∷ take 8 (skip 8 s))

abbrev put_code : Text → Option (List Text) → Option (List Text)
put_code bytes none = none
put_code bytes (some rest) = some (printed_code bytes ∷ rest)

-- `GenerateRecoveryCodes`: the random bytes of each code in turn, if there are any.
unfoldable pub generate_recovery_codes : (ℕ → Option Text) → ℕ → Option (List Text)
unfolding printed_code
generate_recovery_codes draw zero = some []
generate_recovery_codes draw (suc n) = elim (draw n) [
  | none ↦ none
  | some bytes ↦ put_code bytes (generate_recovery_codes draw n)
]
