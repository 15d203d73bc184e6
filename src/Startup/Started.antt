-- ===== src/Startup/Started.antt =====
-- When a process comes to serve, and what it serves with.
use log_monitor_tenex.Prelude.{ℕ, Text, true, Option, ◌≡◌, if◌then◌else◌}
use log_monitor_tenex.Parser.{is_empty}
use log_monitor_tenex.Api.{External}
use log_monitor_tenex.Config.{Config}
use log_monitor_tenex.Startup.{
  connected, connect_with_retry, Services, Running, BlobKind, s3, gcs, api_of, edge_of,
}

module _ (external : External) (random : ℕ → Option Text) (services : Services) where
  -- A process with a limiter, a queue and an archive.
  abbrev pub whole : Config → Running
  whole c = record { config = c; api = api_of external c true true true; edge = edge_of c random }

  -- Without an endpoint the archive is that of Google.
  abbrev pub kind_of : Config → BlobKind
  kind_of c = if is_empty c.s3_endpoint then gcs else s3

  -- The database is reached in one of the attempts, and the clients of the limiter, of the archive
  -- that the configuration names and of the queue can be made.
  abbrev pub IsReady : Config → Type 0
  IsReady c =
      ((k : ℕ) × (w : ℕ) × (connect_with_retry services.connects services.stopped ≡ connected k w))
      × (services.limiter_made ≡ true)
      × (services.blob_made (kind_of c) ≡ true)
      × (services.queue_made ≡ true)
