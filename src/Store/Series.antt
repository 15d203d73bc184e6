-- ===== src/Store/Series.antt =====
-- backend/gateway/internal/store/dashboard.go: the time series and the breakdown by response code.
use log_monitor_tenex.Prelude.{
  ℕ, String, Text, codes, text_eq, Bool, false, Option, none, some, List, [], ◌∷◌, map, keep_if,
  ltb, leb, ◌==◌, if◌then◌else◌,
}
use log_monitor_tenex.Parser.{is_empty}
use log_monitor_tenex.Store.Tables.{LogRow, Rollup, StatusRollup, Grain}
use log_monitor_tenex.Store.Ingest.Rollups.{sum_of, latencies, percentile_disc, trunc}
use log_monitor_tenex.Store.Dashboard.{Scope, in_scope, rollup_in, row_in, share}
use log_monitor_tenex.World.{Exec, ok, Error, select}

-- `SeriesPoint`
pub record SeriesPoint : Type 0 where
  pub bucket : ℕ
  pub requests : ℕ
  pub errors : ℕ
  pub bytes_in : ℕ
  pub bytes_out : ℕ
  pub cache_hits : ℕ
  pub cache_total : ℕ
  pub latency_p50 : Option ℕ
  pub latency_p95 : Option ℕ
  pub latency_p99 : Option ℕ

-- Numbers in ascending order, each once.
abbrev insert_once : ℕ → List ℕ → List ℕ
insert_once n [] = n ∷ []
insert_once n (m ∷ ms) =
    let later = insert_once n ms in
    if n == m then m ∷ ms else if ltb n m then n ∷ m ∷ ms else m ∷ later

abbrev in_order : List ℕ → List ℕ
in_order [] = []
in_order (n ∷ ns) = insert_once n (in_order ns)

abbrev pub grain_of : Text → Grain
grain_of s = if text_eq s (codes "minute") then Grain.minute else Grain.hour

abbrev is_at : ℕ → Rollup → Bool
is_at t r = r.bucket.bucket_start == t

abbrev is_time_at : Grain → ℕ → Option ℕ → Bool
is_time_at grain t none = false
is_time_at grain t (some s) = trunc grain s == t

-- The counts of a bucket, joined with the latencies of the rows in it.
abbrev point : Grain → List Rollup → List LogRow → ℕ → SeriesPoint
point grain rollups rows t =
    let here = keep_if (is_at t) rollups in
    let ms = latencies (keep_if (λ (r : LogRow). is_time_at grain t r.entry.ts) rows) in
    record {
      bucket = t;
      requests = sum_of (λ (r : Rollup). r.requests) here;
      errors = sum_of (λ (r : Rollup). r.errors) here;
      bytes_in = sum_of (λ (r : Rollup). r.bytes_in) here;
      bytes_out = sum_of (λ (r : Rollup). r.bytes_out) here;
      cache_hits = sum_of (λ (r : Rollup). r.cache_hits) here;
      cache_total = sum_of (λ (r : Rollup). r.cache_total) here;
      latency_p50 = percentile_disc 50 ms;
      latency_p95 = percentile_disc 95 ms;
      latency_p99 = percentile_disc 99 ms;
    }

abbrev pub series_of : Grain → List Rollup → List LogRow → List SeriesPoint
series_of grain rollups rows =
    map (point grain rollups rows) (in_order (map (λ (r : Rollup). r.bucket.bucket_start) rollups))

-- `DashboardSeries`
unfoldable pub dashboard_series : Scope → Text → Exec Error (List SeriesPoint)
unfolding in_scope percentile_disc trunc
dashboard_series sc grain = select λ w. ok (
    series_of (grain_of grain) (keep_if (rollup_in sc (grain_of grain)) w.db.entry_rollups)
      (keep_if (row_in sc) w.db.log_entries))

-- `StatusBreakdown`. `part` is the share as a fraction, `none` for the 0 that is left where there are
-- no requests at all.
pub record StatusBreakdown : Type 0 where
  pub code : ℕ
  pub class : String
  pub reason : Text
  pub requests : ℕ
  pub part : Option (ℕ × ℕ)
  pub p95_ms : Option ℕ

-- `statusClass`
unfoldable pub status_class : ℕ → String
status_class code =
    if leb 500 code
    then "server_error"
    else if leb 400 code
    then "client_error"
    else if leb 300 code
    then "redirect"
    else "success"

abbrev pub status_in : Scope → StatusRollup → Bool
status_in sc r = in_scope sc r.org_id r.user_id (some r.bucket_start)

-- The reason of the bucket with the most requests among those that have one.
abbrev best_reason : List StatusRollup → Option StatusRollup
best_reason [] = none
best_reason (r ∷ rs) =
    let rest = best_reason rs in
    if is_empty r.reason
    then rest
    else elim rest [ none ↦ some r | some q ↦ if ltb r.requests q.requests then some q else some r ]

abbrev reason_text : Option StatusRollup → Text
reason_text none = []
reason_text (some r) = r.reason

-- `MAX`, which passes over NULL.
abbrev greatest : List (Option ℕ) → Option ℕ
greatest [] = none
greatest (none ∷ os) = greatest os
greatest (some n ∷ os) = elim (greatest os) [
  | none ↦ some n
  | some m ↦ some (if ltb n m then m else n)
]

abbrev breakdown : List StatusRollup → ℕ → StatusBreakdown
breakdown rows code =
    let here = keep_if (λ (r : StatusRollup). r.resp_code == code) rows in
    let requests = sum_of (λ (r : StatusRollup). r.requests) here in
    record {
      code = code;
      class = status_class code;
      reason = reason_text (best_reason here);
      requests = requests;
      part = share requests (sum_of (λ (r : StatusRollup). r.requests) rows);
      p95_ms = greatest (map (λ (r : StatusRollup). r.latency_p95) here);
    }

abbrev pub breakdowns : List StatusRollup → List StatusBreakdown
breakdowns rows = map (breakdown rows) (in_order (map (λ (r : StatusRollup). r.resp_code) rows))

-- `StatusCodes`
unfoldable pub status_codes : Scope → Exec Error (List StatusBreakdown)
unfolding in_scope status_class
status_codes sc = select λ w. ok (breakdowns (keep_if (status_in sc) w.db.status_rollups))
