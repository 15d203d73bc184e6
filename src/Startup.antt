-- ===== src/Startup.antt =====
-- backend/gateway/cmd/gateway/main.go: the start of the process, with internal/blob/blob.go, `New`,
-- and internal/migrations/migrations.go, `Up`.
--
-- What other services answer at start-up are arguments: whether an attempt to connect succeeds,
-- whether a client can be made. Logs are left out.
pub mod Attempts
pub mod Started
pub mod Migrations
pub mod Commands
use log_monitor_tenex.Prelude.{
  ℕ, zero, suc, ◌+◌, ◌*◌, Text, codes, Bool, true, false, not, Option, none, some, List, [], ◌∷◌,
  ◌==◌, if◌then◌else◌,
}
use log_monitor_tenex.Parser.{is_empty}
use log_monitor_tenex.Api.{Api, External}
use log_monitor_tenex.Filters.{Edge}
use log_monitor_tenex.Config.{
  ℤ, pos, negsuc, Env, Config, ConfigError, Loaded, loaded, refused, load,
}

-- How the loop of `connectWithRetry` ends: the attempt, and the half seconds that were waited.
pub data Connection : Type 0 where
  connected : ℕ → ℕ → Connection
  interrupted : ℕ → Connection
  unreachable : ℕ → Connection

-- Whether an attempt succeeds, and whether the process is told to stop in the wait after it.
module _ (connects stopped : ℕ → Bool) where
  -- The attempts that are left, the next of them, and the wait so far.
  unfoldable pub retry : ℕ → ℕ → ℕ → Connection
  retry zero attempt waited = unreachable waited
  retry (suc left) attempt waited =
      let later = retry left (suc attempt) (waited + attempt) in
      if connects attempt
      then connected attempt waited
      else if stopped attempt
      then interrupted attempt
      else later

  -- `connectWithRetry`
  unfoldable pub connect_with_retry : Connection
  unfolding retry
  connect_with_retry = retry 10 1 0

-- The implementation that `blob.New` chooses.
pub data BlobKind : Type 0 where
  s3 gcs : BlobKind

pub data BlobChoice : Type 0 where
  no_bucket : BlobChoice
  chosen : BlobKind → BlobChoice

-- `blob.New`
unfoldable pub blob_new : Text → Text → BlobChoice
blob_new bucket endpoint =
    if is_empty bucket then no_bucket else if is_empty endpoint then chosen gcs else chosen s3

-- What the services answer to `run`.
pub record Services : Type 0 where
  pub connects : ℕ → Bool
  pub stopped : ℕ → Bool
  pub limiter_made : Bool
  pub blob_made : BlobKind → Bool
  pub queue_made : Bool

pub data StartError : Type 0 where
  bad_config : ConfigError → StartError
  no_database no_limiter no_storage no_queue : StartError

-- What `run` serves with: the configuration, whether there is an archive, and the `API`.
pub record Running : Type 0 where
  pub config : Config
  pub api : Api
  pub edge : Edge

pub data Start : Type 0 where
  running : Running → Start
  failed : StartError → Start

-- A size that is not positive counts as 0.
abbrev size_of : ℤ → ℕ
size_of (pos n) = n
size_of (negsuc n) = 0

-- The `API`, with the limiter, the queue and the archive that there are.
abbrev pub api_of : External → Config → Bool → Bool → Bool → Api
api_of external c limited queued archived = record {
  external = external;
  jwt_secret = c.jwt_secret;
  totp_encryption_key = c.totp_encryption_key;
  login_rate_enabled = c.login_rate_enabled;
  has_limiter = limited;
  has_queue = queued;
  has_blob = archived;
  shard_size = size_of c.shard_size;
  max_upload_bytes = size_of c.max_upload_bytes;
}

abbrev pub edge_of : Config → (ℕ → Option Text) → Edge
edge_of c random = record {
  enabled = c.edge_auth_enabled;
  user = c.edge_auth_user;
  pass_hash = c.edge_auth_pass_hash;
  random_token = random;
}

module _ (external : External) (random : ℕ → Option Text) (services : Services) where
  -- The queue, and the server.
  unfoldable pub start_queue : Config → Bool → Start
  start_queue c archived =
      if services.queue_made
      then running record {
        config = c;
        api = api_of external c services.limiter_made services.queue_made archived;
        edge = edge_of c random;
      }
      else failed no_queue

  abbrev start_chosen : Config → BlobChoice → Start
  start_chosen c no_bucket = failed no_storage
  start_chosen c (chosen kind) =
      if services.blob_made kind then start_queue c (services.blob_made kind) else failed no_storage

  -- The archive, which is left out where no bucket is named.
  unfoldable pub start_archive : Config → Start
  unfolding start_queue blob_new
  start_archive c =
      if is_empty c.s3_bucket
      then start_queue c false
      else start_chosen c (blob_new c.s3_bucket c.s3_endpoint)

  abbrev start_limiter : Config → Connection → Start
  start_limiter c (connected attempt waited) =
      if services.limiter_made then start_archive c else failed no_limiter
  start_limiter c (interrupted attempt) = failed no_database
  start_limiter c (unreachable waited) = failed no_database

  abbrev start_loaded : Loaded → Start
  start_loaded (refused e) = failed (bad_config e)
  start_loaded (loaded c) = start_limiter c (connect_with_retry services.connects services.stopped)

  -- `run` up to the point where it serves.
  unfoldable pub start_up : Env → Start
  unfolding start_archive
  start_up env = start_loaded (load env)
