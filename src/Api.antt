-- ===== src/Api.antt =====
-- backend/gateway/internal/handlers/handlers.go, `API`: the configuration that the handlers read,
-- which parts are present, and the functions of other packages that they call.
use log_monitor_tenex.Prelude.{ℕ, Text, Bool, Option, List}

-- session.go, `Claims`, with the registered claims that the gateway sets; a uuid as its text.
pub record Claims : Type 0 where
  pub org : Text
  pub role : Text
  pub purpose : Text
  pub subject : Text
  pub issued_at : ℕ
  pub expires_at : ℕ

-- Functions of third-party packages, and of two components that the handlers only call: the password
-- hash (auth/password.go, in Passwords) and the sealing of secrets (mfa/mfa.go, in Secrets).
pub record External : Type 0 where
  -- github.com/google/uuid
  pub parse_uuid : Text → Option ℕ
  pub uuid_text : ℕ → Text
  -- github.com/golang-jwt/jwt: signing, and parsing at a time under the pinned algorithm
  pub sign : Text → Claims → Option Text
  pub parse_token : Text → ℕ → Text → Option Claims
  -- crypto/sha256 and encoding/hex, the first eight bytes
  pub digest : Text → Text
  -- `HashPassword` with the randomness that it draws, and `VerifyPassword` (a malformed hash
  -- answers like a wrong password)
  pub hash_password : ℕ → Text → Option Text
  pub verify_password : Text → Text → Bool
  -- `Encrypt` with the randomness that it draws, and `Decrypt`
  pub encrypt : ℕ → Text → Text → Option Text
  pub decrypt : Text → Text → Option Text
  -- net, `SplitHostPort`: the host
  pub split_host_port : Text → Option Text
  -- github.com/pquerna/otp: a new secret with its address, and whether a code is valid at a time
  pub generate_secret : ℕ → Text → Option (Text × Text)
  pub totp_valid : Text → Text → ℕ → Bool
  -- `GenerateRecoveryCodes`, from the randomness that it draws
  pub recovery_code : ℕ → Option Text
  -- the order in which Go ranges over a map, from the randomness that it draws
  pub range_map : ℕ → List (ℕ × Text) → List (ℕ × Text)

pub record Api : Type 0 where
  pub external : External
  pub open external use *
  pub jwt_secret : Text
  pub totp_encryption_key : Text
  pub login_rate_enabled : Bool
  pub has_limiter : Bool
  pub has_queue : Bool
  pub has_blob : Bool
  pub shard_size : ℕ
  pub max_upload_bytes : ℕ
