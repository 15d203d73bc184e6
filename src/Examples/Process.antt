-- ===== src/Examples/Process.antt =====
-- The start of a process, and the secrets that it makes.
use log_monitor_tenex.Prelude.{
  ℕ, zero, suc, ◌%◌, ◌<◌, String, Text, codes, text_eq, true, false, none, some, [], ◌∷◌, ◌≡◌, ◌⊎◌,
  refl, arith, all, length, ◌==◌, if◌then◌else◌, to_upper,
}
use log_monitor_tenex.Bytes.{IsBytes}
use log_monitor_tenex.Bytes.Base64.{encode as encode64}
use log_monitor_tenex.Bytes.Base32.{encode as encode32}
use log_monitor_tenex.Bytes.Hex.{decode as decode_hex}
use log_monitor_tenex.Passwords.{Argon, hash_password, verify_password}
use log_monitor_tenex.Passwords.RoundTrip.{key_of, verify_password-hash_password}
use log_monitor_tenex.Secrets.{printed_code}
use log_monitor_tenex.Secrets.Codes.{printed_code_lem, is_code_char}
use log_monitor_tenex.Handlers.Mfa.{normalize_recovery_code}
use log_monitor_tenex.Config.{Env, Config, ConfigError, load, loaded, refused, settings}
use log_monitor_tenex.Config.Accepted.{Fit, Reason, load_lem}
use log_monitor_tenex.Startup.{
  connect_with_retry, Services, Running, running, start_up, api_of, edge_of,
}
use log_monitor_tenex.Examples.Sample.{outside}
use log_monitor_tenex.Startup.Attempts.{Explained, connect_with_retry_lem}

-- A key of the right length that depends on the password.
first_byte : Text → ℕ
first_byte [] = 0
first_byte (c ∷ s) = c % 256

abbrev padded : ℕ → Text → Text
padded zero s = []
padded (suc n) s = first_byte s ∷ padded n []

padded-IsBytes : (n : ℕ) (s : Text) → IsBytes (padded n s)
unfolding first_byte
padded-IsBytes zero s = refl
padded-IsBytes (suc n) [] = padded-IsBytes n []
padded-IsBytes (suc n) (c ∷ s) =
    let low : c % 256 < 256 = omega arith in ground (arith, low, padded-IsBytes n [])

length-padded : (n : ℕ) (s : Text) → length (padded n s) ≡ n
length-padded zero s = refl
length-padded (suc n) s = omega (arith, length-padded n [])

abbrev argon : Argon
argon = record {
  id_key = λ password salt time memory threads len. padded len password;
  id_key-IsBytes = λ password salt time memory threads len. padded-IsBytes len password;
  length-id_key = λ password salt time memory threads len. length-padded len password;
}

abbrev salt : Text
salt = codes "0123456789abcdef"

abbrev stored : Text
stored =
    codes
      "$argon2id$v=19$m=65536,t=3,p=4$MDEyMzQ1Njc4OWFiY2RlZg$aAAAAAAAAAAAAAAAAAAAAAAAAAAAAAAAAAAAAAAAAAA"

stored_lem : hash_password argon (some salt) (codes "horse") ≡ some stored
unfolding hash_password first_byte encode64
stored_lem = refl

verify_password-hash_password_example :
    (verify_password argon (codes "cart") stored
      ≡ some (text_eq (key_of argon (codes "cart") salt) (key_of argon (codes "horse") salt)))
    × (verify_password argon (codes "horse") stored ≡ some true)
verify_password-hash_password_example =
    verify_password-hash_password argon salt (codes "horse") (codes "cart") stored refl stored_lem

abbrev ten_bytes : Text
ten_bytes = codes "0123456789"

-- The code in small letters, with spaces.
abbrev typed : Text
typed = codes "ga3wep4x - gx6drrb4 "

printed_code_lem_example :
    (all is_code_char (printed_code ten_bytes) ≡ true)
    × (length (printed_code ten_bytes) ≡ 17)
    × (normalize_recovery_code typed ≡ printed_code ten_bytes)
unfolding printed_code encode32 to_upper
printed_code_lem_example = printed_code_lem ten_bytes typed refl refl refl

-- An environment with the two secrets.
abbrev set_to : String → Text → Env → Env
set_to name value rest key = if text_eq (codes key) (codes name) then value else rest key

abbrev hex_key : Text
hex_key = codes "000102030405060708090a0b0c0d0e0f101112131415161718191a1b1c1d1e1f"

abbrev env : Env
env = set_to "JWT_SECRET" (codes "s3cret") (set_to "TOTP_ENCRYPTION_KEY" hex_key (λ key. []))

load_lem_example :
    ((c : Config) × (load env ≡ loaded c) × Fit env c)
    ⊎ ((e : ConfigError) × (load env ≡ refused e) × Reason env e)
load_lem_example = load_lem env

-- The database is there at the third attempt.
connect_with_retry_lem_example :
    Explained (λ n. n == 3) (λ n. false) (connect_with_retry (λ n. n == 3) (λ n. false))
connect_with_retry_lem_example = connect_with_retry_lem (λ n. n == 3) (λ n. false)

abbrev services : Services
services = record {
  connects = λ n. n == 3;
  stopped = λ n. false;
  limiter_made = true;
  blob_made = λ kind. true;
  queue_made = true;
}

abbrev process_config : Config
unfolding settings
process_config = record (settings env) {
  totp_encryption_key =
      0 ∷ 1 ∷ 2 ∷ 3 ∷ 4 ∷ 5 ∷ 6 ∷ 7 ∷ 8 ∷ 9 ∷ 10 ∷ 11 ∷ 12 ∷ 13 ∷ 14 ∷ 15 ∷ 16 ∷ 17 ∷ 18 ∷ 19 ∷ 20
      ∷ 21 ∷ 22 ∷ 23 ∷ 24 ∷ 25 ∷ 26 ∷ 27 ∷ 28 ∷ 29 ∷ 30 ∷ 31 ∷ [];
}

abbrev process : Running
process = record {
  config = process_config;
  api = api_of outside process_config true true true;
  edge = edge_of process_config (λ n. none);
}

-- It does serve.
started : start_up outside (λ n. none) services env ≡ running process
unfolding start_up load settings decode_hex connect_with_retry
started = refl
