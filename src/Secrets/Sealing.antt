-- ===== src/Secrets/Sealing.antt =====
-- A secret that was sealed is read back, with the key that sealed it.
use log_monitor_tenex.Prelude.{
  ℕ, zero, suc, Text, true, false, Option, none, some, [], ◌∷◌, ◌++◌, ◌≡◌, refl, ap, arith, ◌==◌,
  ltb, length, length-append, take, Bool-cases, inl, inr, if◌then◌else◌,
}
use log_monitor_tenex.Secrets.{Aead, nonce_size, skip, encrypt, decrypt}

take-append : (xs ys : Text) (n : ℕ) → length xs ≡ n → take n (xs ++ ys) ≡ xs
take-append [] [] zero h = refl
take-append [] (y ∷ ys) zero h = refl
take-append [] ys (suc n) h = absurd (omega (arith, h))
take-append (x ∷ xs) ys zero h = absurd (omega (arith, h))
take-append (x ∷ xs) ys (suc n) h =
    ap (λ (t : Text). x ∷ t) (take-append xs ys n (omega (arith, h)))

skip-append : (xs ys : Text) (n : ℕ) → length xs ≡ n → skip n (xs ++ ys) ≡ ys
skip-append [] ys zero h = refl
skip-append [] ys (suc n) h = absurd (omega (arith, h))
skip-append (x ∷ xs) ys zero h = absurd (omega (arith, h))
skip-append (x ∷ xs) ys (suc n) h = skip-append xs ys n (omega (arith, h))

abbrev pub opened : Aead → Text → Option Text → Option Text
opened aead key none = none
opened aead key (some sealed) = decrypt aead sealed key

module _ (aead : Aead) (nonce secret key : Text) (size : length nonce ≡ nonce_size) where
  long_enough : ltb (length (nonce ++ aead.seal key nonce secret)) nonce_size ≡ false
  long_enough = ground (arith, length-append nonce (aead.seal key nonce secret))

  opened-sealed :
      aead.open_sealed key
        (take nonce_size (nonce ++ aead.seal key nonce secret))
        (skip nonce_size (nonce ++ aead.seal key nonce secret))
      ≡ some secret
  opened-sealed =
      rw
        (
          take-append nonce (aead.seal key nonce secret) nonce_size size,
          skip-append nonce (aead.seal key nonce secret) nonce_size size,
        )
        (aead.open_sealed-seal key nonce secret)

  sealed_with :
      (length key == 32) ≡ true
      → encrypt aead (some nonce) secret key ≡ some (nonce ++ aead.seal key nonce secret)
  unfolding encrypt
  sealed_with e = ground (arith, e)

  opened_with :
      (length key == 32) ≡ true
      → decrypt aead (nonce ++ aead.seal key nonce secret) key ≡ some secret
  unfolding decrypt
  opened_with e = ground (arith, e, long_enough, opened-sealed)

  not_sealed : (length key == 32) ≡ false → encrypt aead (some nonce) secret key ≡ none
  unfolding encrypt
  not_sealed e = ground (arith, e)

-- With a key of 32 bytes a secret is sealed, and opened again with the same key; with any other key
-- it is not sealed.
pub decrypt-encrypt :
    (aead : Aead) (nonce secret key : Text)
    → length nonce ≡ nonce_size
    → opened aead key (encrypt aead (some nonce) secret key)
      ≡ (if length key == 32 then some secret else none)
decrypt-encrypt aead nonce secret key size = elim (Bool-cases (length key == 32)) [
  | inl e ↦
      let sealed = sealed_with aead nonce secret key size e in
      rw (sealed, e) (opened_with aead nonce secret key size e)
  | inr e ↦ let refused = not_sealed aead nonce secret key size e in rw (refused, e) refl
]
