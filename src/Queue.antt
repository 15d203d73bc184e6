-- ===== src/Queue.antt =====
-- backend/gateway/internal/queue/queue.go: an analysis is fanned out into jobs, one for each shard.
pub mod Shards
use mathlib.Core.List.{reverse}
use log_monitor_tenex.Prelude.{
  ℕ, zero, suc, ◌+◌, ◌-◌, ◌*◌, ◌/◌, ◌^◌, Text, codes, Option, some, List, [], ◌∷◌, ◌++◌, ltb,
  if◌then◌else◌, Bool, true, false,
}
use log_monitor_tenex.Api.{Api}
use log_monitor_tenex.World.{
  World, Cell, Job, JobKind, Exec, Result, ok, err, Error, unavailable, fails, called, put_key,
}

abbrev pub pending_ttl : ℕ
pending_ttl = 3600

abbrev pub default_shard_size : ℕ
default_shard_size = 25000

-- `if shardSize <= 0`; a size that is not positive is 0 here.
unfoldable pub effective_size : ℕ → ℕ
effective_size zero = default_shard_size
effective_size (suc n) = suc n

-- `(entryCount + shardSize - 1) / shardSize` in 64-bit integers: where the sum does not fit it is
-- negative, and so is no quotient of at least 1.
unfoldable pub quotient : ℕ → ℕ → ℕ
quotient entries size = let sum = entries + size - 1 in if ltb sum (2 ^ 63) then sum / size else 0

-- `if shards < 1`
unfoldable pub shard_count : ℕ → ℕ → ℕ
unfolding quotient
shard_count entries size = let n = quotient entries size in if ltb n 1 then 1 else n

-- The job of one shard.
unfoldable pub shard_job : Job → ℕ → ℕ → ℕ → Job
shard_job base shards size i = record base {
  kind = JobKind.map_job;
  shard = i;
  shard_count = shards;
  offset = i * size;
  limit = size;
}

-- The jobs of `n` shards from the i-th on.
unfoldable pub jobs_from : Job → ℕ → ℕ → ℕ → ℕ → List Job
unfolding shard_job
jobs_from base shards size i zero = []
jobs_from base shards size i (suc n) =
    shard_job base shards size i ∷ jobs_from base shards size (suc i) n

unfoldable pub pending_key : Api → ℕ → Text
pending_key api analysis = codes "logmonitor:pending:" ++ api.uuid_text analysis

-- The jobs that an analysis becomes.
unfoldable pub fan_out : Job → ℕ → ℕ → List Job
unfolding jobs_from shard_count
fan_out base entries size = let n = shard_count entries size in jobs_from base n size 0 n

-- `PublishAnalysis`: the counter and the jobs in one transaction; `LPUSH` puts each job in front.
unfoldable pub publish_analysis : Api → Job → ℕ → ℕ → Exec Error ℕ
unfolding effective_size fan_out pending_key fails called put_key
publish_analysis api base entries shard_size w =
    let size = effective_size shard_size in
    let n = shard_count entries size in
    if fails w then (err unavailable, called w) else (
      ok n,
      record (called w) {
        redis =
            put_key (pending_key api base.analysis_id)
              (some (record { value = n; expires = some (w.now + pending_ttl) })) w.redis;
        jobs = reverse (fan_out base entries size) ++ w.jobs;
      },
    )
