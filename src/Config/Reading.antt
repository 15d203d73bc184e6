-- ===== src/Config/Reading.antt =====
-- The key for TOTP secrets is the one that the environment gives in hexadecimal.
use log_monitor_tenex.Prelude.{Text, some, [], ◌∷◌, ◌≡◌, ◌≢◌, sym, ◌∙◌, ap, arith, inl, inr, length}
use log_monitor_tenex.Bytes.{IsBytes}
use log_monitor_tenex.Bytes.Hex.{encode, decode, decode-encode}
use log_monitor_tenex.Config.{Env, Config, ConfigError, loaded, refused, load}
use log_monitor_tenex.Config.Accepted.{HasKey, load_lem}

encode-filled : (key : Text) → length key ≡ 32 → encode key ≢ []
unfolding encode
encode-filled [] size h = absurd (omega (arith, size))
encode-filled (b ∷ key) size h = cc h

HasKey-hex :
    (get : Env) (key found : Text)
    → IsBytes key
    → length key ≡ 32
    → get "TOTP_ENCRYPTION_KEY" ≡ encode key
    → HasKey get found
    → found ≡ key
HasKey-hex get key found bytes size given (inl (unset, _)) =
    absurd (encode-filled key size (sym given ∙ unset))
HasKey-hex get key found bytes size given (inr (read, _)) =
    let both : some found ≡ some key = sym read ∙ ap decode given ∙ decode-encode key bytes in
    cc both

refused-ne-loaded : {e : ConfigError} {c : Config} → refused e ≢ loaded c
refused-ne-loaded h = cc h

-- A process that starts where the variable holds a key of 32 bytes in hexadecimal has that key.
pub load-hex :
    (get : Env) (key : Text) (c : Config)
    → IsBytes key
    → length key ≡ 32
    → get "TOTP_ENCRYPTION_KEY" ≡ encode key
    → load get ≡ loaded c
    → c.totp_encryption_key ≡ key
load-hex get key c bytes size given started = elim (load_lem get) [
  | inl (d, same, fit) ↦
      let equal : d ≡ c = cc (sym same ∙ started) in
      sym (ap (λ (x : Config). x.totp_encryption_key) equal)
      ∙ HasKey-hex get key d.totp_encryption_key bytes size given (fit.2)
  | inr (e, same, reason) ↦ absurd (refused-ne-loaded (sym same ∙ started))
]
