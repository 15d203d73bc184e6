-- ===== src/Passwords/RoundTrip.antt =====
-- A hash is read back as it was written.
use log_monitor_tenex.Prelude.{
  ℕ, Text, codes, text_eq, text_eq_refl, true, false, some, [], ◌∷◌, ◌++◌, ◌≡◌, refl, sym, ◌∙◌, ap,
  arith, split, contains, length,
}
use log_monitor_tenex.Bytes.{IsBytes}
use log_monitor_tenex.Bytes.Base64.{encode, decode-encode, encode-dollar}
use log_monitor_tenex.Passwords.{
  Argon, argon_time, argon_memory, argon_threads, argon_key_len, header, hash_password,
  verify_password, check_parts,
}

-- A text without the separator is one part.
split-piece :
    (c : ℕ) (s rest : Text) → contains c s ≡ false → split c (s ++ c ∷ rest) ≡ s ∷ split c rest
unfolding split contains
split-piece c [] rest h = ground arith
split-piece c (d ∷ s) rest h = rw (split-piece c s rest (ground arith)) (ground arith)

split-last : (c : ℕ) (s : Text) → contains c s ≡ false → split c s ≡ s ∷ []
unfolding split contains
split-last c [] h = refl
split-last c (d ∷ s) h = rw (split-last c s (ground arith)) (ground arith)

-- The parts of a hash.
parts-hash :
    (salt key : Text)
    → IsBytes salt
    → IsBytes key
    → split b'$' (header ++ (encode salt ++ (b'$' ∷ encode key)))
      ≡ []
        ∷ codes "argon2id"
        ∷ codes "v=19"
        ∷ codes "m=65536,t=3,p=4"
        ∷ encode salt
        ∷ encode key
        ∷ []
unfolding split
parts-hash salt key hs hk =
    rw
      (
        split-piece b'$' (encode salt) (encode key) (encode-dollar salt hs),
        split-last b'$' (encode key) (encode-dollar key hk),
      )
      refl

-- The key that a password gives with the parameters of the gateway.
abbrev pub key_of : Argon → Text → Text → Text
key_of argon password salt =
    argon.id_key password salt argon_time argon_memory argon_threads argon_key_len

module _ (argon : Argon) (salt p : Text) (salt-IsBytes : IsBytes salt) where
  abbrev written : Text
  written = header ++ (encode salt ++ (b'$' ∷ encode (key_of argon p salt)))

  -- The key is asked for in the length of the one that was stored.
  stored_length : length (key_of argon p salt) ≡ argon_key_len
  stored_length = argon.length-id_key p salt argon_time argon_memory argon_threads argon_key_len

  verify-written :
      (q : Text)
      → verify_password argon q written ≡ some (text_eq (key_of argon q salt) (key_of argon p salt))
  unfolding verify_password check_parts
  verify-written q =
      let key-IsBytes =
        argon.id_key-IsBytes p salt argon_time argon_memory argon_threads argon_key_len in
      ap (check_parts argon q) (parts-hash salt (key_of argon p salt) salt-IsBytes key-IsBytes)
      ∙ rw
          (
            decode-encode salt salt-IsBytes,
            decode-encode (key_of argon p salt) key-IsBytes,
            stored_length,
          )
          refl

-- A hash of sixteen random bytes and a password is well formed. It fits a password exactly if that
-- derives the same key with those bytes; so it fits the one that was hashed.
pub verify_password-hash_password :
    (argon : Argon) (salt p q h : Text)
    → IsBytes salt
    → hash_password argon (some salt) p ≡ some h
    → (verify_password argon q h ≡ some (text_eq (key_of argon q salt) (key_of argon p salt)))
      × (verify_password argon p h ≡ some true)
unfolding hash_password
verify_password-hash_password argon salt p q h hs made =
    let same : written argon salt p hs ≡ h = cc made in
    let fits = verify-written argon salt p hs in
    (
      ap (verify_password argon q) (sym same) ∙ fits q,
      ap (verify_password argon p) (sym same)
          ∙ fits p
          ∙ ap (λ b. some b) (text_eq_refl (key_of argon p salt)),
    )
