-- ===== src/Config/Accepted.antt =====
-- With which settings the process starts, and for which reason it does not.
use log_monitor_tenex.Prelude.{
  Text, codes, Bool, true, false, Option, none, some, [], ◌∷◌, ◌≡◌, ◌≢◌, ◌⊎◌, refl, sym, ◌∙◌, ap,
  arith, inl, inr, length, ◌==◌, ==_iff, ◌&&◌, ◌||◌, Bool-cases, String,
}
use log_monitor_tenex.Parser.{is_empty}
use log_monitor_tenex.Bytes.Hex.{decode}
use log_monitor_tenex.Config.{
  Env, Config, ConfigError, edge_credentials_missing, bad_totp_key, no_jwt_secret, Loaded, loaded,
  refused, env, settings, load, with_secret, with_key,
}

-- The key of the settings: none where the variable is unset, else its 32 bytes in hexadecimal.
abbrev pub HasKey : Env → Text → Type 0
HasKey get key =
    ((get "TOTP_ENCRYPTION_KEY" ≡ []) × (key ≡ []))
    ⊎ ((decode (get "TOTP_ENCRYPTION_KEY") ≡ some key) × (length key ≡ 32))

-- What holds of the settings of a process that starts.
abbrev pub Fit : Env → Config → Type 0
Fit get c =
    (c.jwt_secret ≡ get "JWT_SECRET")
    × (get "JWT_SECRET" ≢ [])
    × HasKey get c.totp_encryption_key
    × ((c.edge_auth_enabled && (is_empty c.edge_auth_user || is_empty c.edge_auth_pass_hash))
        ≡ false)
    × (c.s3_bucket ≢ [])

-- The reason of a refusal.
abbrev pub Reason : Env → ConfigError → Type 0
Reason get edge_credentials_missing =
    ((settings get).edge_auth_enabled ≡ true)
    × ((get "EDGE_AUTH_USER" ≡ []) ⊎ (get "EDGE_AUTH_PASS_HASH" ≡ []))
Reason get bad_totp_key =
    (get "TOTP_ENCRYPTION_KEY" ≢ [])
    × ((key : Text) → decode (get "TOTP_ENCRYPTION_KEY") ≡ some key → length key ≢ 32)
Reason get no_jwt_secret = get "JWT_SECRET" ≡ []

empty_text : (s : Text) → is_empty s ≡ true → s ≡ []
empty_text [] h = refl
empty_text (c ∷ s) h = cc

filled_text : (s : Text) → is_empty s ≡ false → s ≢ []
filled_text [] h e = cc
filled_text (c ∷ s) h e = cc e

and_left : (a b : Bool) → (a && b) ≡ true → a ≡ true
and_left a b h = ground arith

and_right : (a b : Bool) → (a && b) ≡ true → b ≡ true
and_right a b h = ground arith

other_length : (key other : Text) → (length key == 32) ≡ false → key ≡ other → length other ≢ 32
other_length key other e same h =
    let k : length key ≡ 32 = ap length same ∙ h in ground (arith, e, k)

either_empty : (s t : Text) → (is_empty s || is_empty t) ≡ true → (s ≡ []) ⊎ (t ≡ [])
either_empty [] t h = inl refl
either_empty (c ∷ s) t h = inr (empty_text t h)

module _ (get : Env) where
  env-unset :
      (key fallback : String) → is_empty (get key) ≡ true → env get key fallback ≡ codes fallback
  unfolding env
  env-unset key fallback e = rw e refl

  env-set : (key fallback : String) → is_empty (get key) ≡ false → env get key fallback ≡ get key
  unfolding env
  env-set key fallback e = rw e refl

  env-empty : (key : String) → env get key "" ≡ get key
  env-empty key = elim (Bool-cases (is_empty (get key))) [
    | inl e ↦ env-unset key "" e ∙ sym (empty_text (get key) e)
    | inr e ↦ env-set key "" e
  ]

  env-filled : (key fallback : String) → codes fallback ≢ [] → env get key fallback ≢ []
  env-filled key fallback named h = elim (Bool-cases (is_empty (get key))) [
    | inl e ↦ named (sym (env-unset key fallback e) ∙ h)
    | inr e ↦ filled_text (get key) e (sym (env-set key fallback e) ∙ h)
  ]

  bucket_named : (settings get).s3_bucket ≢ []
  unfolding settings
  bucket_named = env-filled "S3_BUCKET" "logmonitor-raw" (λ h. cc h)

  jwt_secret_lem : (settings get).jwt_secret ≡ get "JWT_SECRET"
  unfolding settings
  jwt_secret_lem = env-empty "JWT_SECRET"

  user_lem : (settings get).edge_auth_user ≡ get "EDGE_AUTH_USER"
  unfolding settings
  user_lem = env-empty "EDGE_AUTH_USER"

  pass_hash_lem : (settings get).edge_auth_pass_hash ≡ get "EDGE_AUTH_PASS_HASH"
  unfolding settings
  pass_hash_lem = env-empty "EDGE_AUTH_PASS_HASH"

  no_key : (settings get).totp_encryption_key ≡ []
  unfolding settings
  no_key = refl

  gate_open :
      ((settings get).edge_auth_enabled
          && (is_empty (settings get).edge_auth_user
              || is_empty (settings get).edge_auth_pass_hash))
        ≡ true
      → Reason get edge_credentials_missing
  gate_open h =
      let missing =
        either_empty (settings get).edge_auth_user (settings get).edge_auth_pass_hash
          (and_right _ _ h) in
      (
        and_left _ _ h,
        elim missing [ inl e ↦ inl (sym user_lem ∙ e) | inr e ↦ inr (sym pass_hash_lem ∙ e) ],
      )

  -- Either way, and why.
  abbrev Settled : Loaded → Type 0
  Settled l =
      ((c : Config) × (l ≡ loaded c) × Fit get c)
      ⊎ ((e : ConfigError) × (l ≡ refused e) × Reason get e)

  abbrev with_totp_key : Text → Config
  with_totp_key key = record (settings get) { totp_encryption_key = key }

  -- The last test, on a key that passed its own.
  secret-Settled :
      (key : Text)
      → HasKey get key
      → ((settings get).edge_auth_enabled
          && (is_empty (settings get).edge_auth_user
              || is_empty (settings get).edge_auth_pass_hash))
        ≡ false
      → Settled (with_secret get (with_totp_key key))
  secret-Settled key has gate = elim (Bool-cases (is_empty (settings get).jwt_secret)) [
    | inl e ↦
        inr (no_jwt_secret, rw e refl, sym jwt_secret_lem ∙ empty_text (settings get).jwt_secret e)
    | inr e ↦ inl (
      with_totp_key key,
      rw e refl,
      (
        jwt_secret_lem,
        (λ h. filled_text (settings get).jwt_secret e (jwt_secret_lem ∙ h)),
        has,
        gate,
        bucket_named,
      ),
    )
  ]

  key-Settled :
      (o : Option Text)
      → decode (get "TOTP_ENCRYPTION_KEY") ≡ o
      → is_empty (get "TOTP_ENCRYPTION_KEY") ≡ false
      → ((settings get).edge_auth_enabled
          && (is_empty (settings get).edge_auth_user
              || is_empty (settings get).edge_auth_pass_hash))
        ≡ false
      → Settled (with_key get (settings get) o)
  key-Settled none q filled gate =
      inr (bad_totp_key, refl, (filled_text _ filled, λ key h. cc (sym q ∙ h)))
  key-Settled (some key) q filled gate = elim (Bool-cases (length key == 32)) [
    | inl e ↦ rw e (secret-Settled key (inr (q, (==_iff (length key) 32).0 e)) gate)
    | inr e ↦ inr (
      bad_totp_key,
      rw e refl,
      (filled_text _ filled, λ other h. other_length key other e (cc (sym q ∙ h))),
    )
  ]

-- A process starts with the signing secret of the environment, which is not empty; with a key for
-- TOTP secrets of 32 bytes, or none where the variable is unset; with both credentials of the edge
-- gate where that is on; and always with the name of a bucket. It refuses to start for the reason
-- that it names: a credential of the gate that is on is missing, the key is there and is not 32
-- bytes in hexadecimal, or there is no signing secret.
pub load_lem :
    (get : Env)
    → ((c : Config) × (load get ≡ loaded c) × Fit get c)
      ⊎ ((e : ConfigError) × (load get ≡ refused e) × Reason get e)
unfolding load settings
load_lem get =
    elim (Bool-cases (
      (settings get).edge_auth_enabled
      && (is_empty (settings get).edge_auth_user || is_empty (settings get).edge_auth_pass_hash))) [
        | inl e ↦ inr (edge_credentials_missing, rw e refl, gate_open get e)
        | inr e ↦ elim (Bool-cases (is_empty (get "TOTP_ENCRYPTION_KEY"))) [
          | inl no_var ↦ rw (e, no_var) (secret-Settled get [] (inl (empty_text _ no_var, refl)) e)
          | inr filled ↦
              rw (e, filled) (key-Settled get (decode (get "TOTP_ENCRYPTION_KEY")) refl filled e)
        ]
      ]
