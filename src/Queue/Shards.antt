-- ===== src/Queue/Shards.antt =====
-- queue.go, `PublishAnalysis`: the shards cover the entries of an upload, each exactly once.
use mathlib.Core.List.{reverse}
use native.Mathlib.Nat.{div-add-mod', mod-lt}
use log_monitor_tenex.Prelude.{
  ℕ, zero, suc, ◌+◌, ◌-◌, ◌*◌, ◌/◌, ◌^◌, ◌≤◌, ◌<◌, Bool, ◌&&◌, some, ◌++◌, ◌≡◌, refl, ◌⊎◌, inl, inr,
  ltb, ltb→lt, leb, arith, length, count_if, text_eq_refl, Bool-cases,
}
use log_monitor_tenex.Api.{Api}
use log_monitor_tenex.World.{World, Job, ok, err, Error, key_of, fails}
use log_monitor_tenex.Queue.{
  quotient, shard_count, jobs_from, fan_out, effective_size, publish_analysis, pending_key,
}

-- Row `r` of an upload, in the order in which a worker pages through it, is one of this job's.
abbrev pub takes : ℕ → Job → Bool
takes r j = leb j.offset r && ltb r (j.offset + j.limit)

length-jobs_from : (b : Job) (shards size i n : ℕ) → length (jobs_from b shards size i n) ≡ n
unfolding jobs_from
length-jobs_from b shards size i zero = refl
length-jobs_from b shards size i (suc n) = omega (arith, length-jobs_from b shards size (suc i) n)

-- Before its own shard no job takes a row, and after it none does.
jobs_before :
    (b : Job) (shards size i n r : ℕ)
    → r < i * size
    → count_if (takes r) (jobs_from b shards size i n) ≡ 0
unfolding jobs_from
jobs_before b shards size i zero r h = refl
jobs_before b shards size i (suc n) r h =
    ground (arith, jobs_before b shards size (suc i) n r (grind arith))

jobs_once :
    (b : Job) (shards size i n r : ℕ)
    → i * size ≤ r
    → r < (i + n) * size
    → count_if (takes r) (jobs_from b shards size i n) ≡ 1
unfolding jobs_from
jobs_once b shards size i zero r lo hi = absurd (omega arith)
jobs_once b shards size i (suc n) r lo hi = elim (Bool-cases (ltb r (i * size + size))) [
  | inl here ↦
      let upper : r < suc i * size = omega (arith, ltb→lt r (i * size + size) here) in
      ground (arith, jobs_before b shards size (suc i) n r upper)
  | inr later ↦
      let lower : suc i * size ≤ r = ground arith in
      let upper : r < (suc i + n) * size = omega arith in
      ground (arith, jobs_once b shards size (suc i) n r lower upper)
]

ceiling : (entries size : ℕ) → 0 < size → entries ≤ (entries + size - 1) / size * size
ceiling entries size pos =
    omega (arith, div-add-mod' (entries + size - 1) size, mod-lt (entries + size - 1) pos)

-- Enough shards for the entries.
shards_suffice :
    (entries size : ℕ)
    → 0 < size
    → entries + size - 1 < 2 ^ 63
    → entries ≤ shard_count entries size * size
unfolding shard_count quotient
shards_suffice entries size pos fits =
    let d = entries + size - 1 in
    let enough = ceiling entries size pos in
    elim (Bool-cases (ltb d (2 ^ 63))) [
      | inl small ↦ rw small (ground (arith, enough))
      | inr big ↦ absurd (ground arith)
    ]

fan_out-length :
    (b : Job) (entries size : ℕ) → length (fan_out b entries size) ≡ shard_count entries size
unfolding fan_out
fan_out-length b entries size = length-jobs_from b _ size 0 (shard_count entries size)

-- For a positive shard size and a sum that fits into 64 bits, each entry of the upload is in exactly
-- one of the shards that the jobs name.
pub fan_out_partitions :
    (b : Job) (entries size r : ℕ)
    → 0 < size
    → entries + size - 1 < 2 ^ 63
    → r < entries
    → count_if (takes r) (fan_out b entries size) ≡ 1
unfolding fan_out
fan_out_partitions b entries size r pos fits h =
    let n = shard_count entries size in
    jobs_once b n size 0 n r (omega arith) (omega (arith, shards_suffice entries size pos fits))

shard_count-pos : (entries size : ℕ) → 0 < shard_count entries size
unfolding shard_count
shard_count-pos entries size = ground arith

-- A publication either fails and leaves keys and jobs as they were, or announces as many shards as
-- it queues jobs, at least one, under the counter that the workers count down.
publish_analysis_atomic :
    (api : Api) (b : Job) (entries size : ℕ) (w : World)
    → (((publish_analysis api b entries size w).0 ≡ err Error.unavailable)
        × ((publish_analysis api b entries size w).1.redis ≡ w.redis)
        × ((publish_analysis api b entries size w).1.jobs ≡ w.jobs))
      ⊎ ((n : ℕ) × ((publish_analysis api b entries size w).0 ≡ ok n)
          × (0 < n)
          × (length (fan_out b entries (effective_size size)) ≡ n)
          × ((publish_analysis api b entries size w).1.jobs
              ≡ reverse (fan_out b entries (effective_size size)) ++ w.jobs)
          × (key_of (publish_analysis api b entries size w).1 (pending_key api b.analysis_id)
              ≡ some (record { value = n; expires = some (w.now + 3600) })))
unfolding publish_analysis key_of
publish_analysis_atomic api b entries size w = elim (Bool-cases (fails w)) [
  | inl down ↦ inl (ground arith, ground arith, ground arith)
  | inr up ↦ inr (
    shard_count entries (effective_size size),
    ground arith,
    shard_count-pos entries (effective_size size),
    fan_out-length b entries (effective_size size),
    ground arith,
    ground (arith, text_eq_refl (api.uuid_text b.analysis_id)),
  )
]
