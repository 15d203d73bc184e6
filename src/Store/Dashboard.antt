-- ===== src/Store/Dashboard.antt =====
-- backend/gateway/internal/store/dashboard.go: the queries of the dashboard.
--
-- A share is the pair of its two numbers. What the database gives in no particular order is in the
-- order of insertion here.
use log_monitor_tenex.Prelude.{
  ℕ, suc, Text, codes, text_eq, Bool, true, false, Option, none, some, List, [], ◌∷◌, map, take,
  length, keep_if, any, ltb, leb, ◌==◌, ◌&&◌, ◌||◌, ◌+◌, ◌-◌, if◌then◌else◌,
}
use log_monitor_tenex.Parser.{is_empty}
use log_monitor_tenex.Store.Tables.{Upload, LogRow, Rollup, Grain, Db}
use log_monitor_tenex.Store.Ingest.Rollups.{
  sum_of, or_zero, latencies, percentile_disc, is_error, same_grain,
}
use log_monitor_tenex.World.{Exec, ok, Error, select, pure, ◌>>=◌}

-- `Scope`
pub record Scope : Type 0 where
  pub org_id : ℕ
  pub user_id : Option ℕ
  pub from : ℕ
  pub to : ℕ

abbrev pub is_user : Option ℕ → ℕ → Bool
is_user none user = true
is_user (some id) user = user == id

-- `whereNoTime`
unfoldable pub in_tenancy : Scope → ℕ → ℕ → Bool
in_tenancy sc org user = org == sc.org_id && is_user sc.user_id user

abbrev in_window : Scope → Option ℕ → Bool
in_window sc none = false
in_window sc (some t) = leb sc.from t && ltb t sc.to

-- `where`, for a row with an organization, a user and a time that may be NULL.
unfoldable pub in_scope : Scope → ℕ → ℕ → Option ℕ → Bool
unfolding in_tenancy
in_scope sc org user t = in_tenancy sc org user && in_window sc t

abbrev pub rollup_in : Scope → Grain → Rollup → Bool
rollup_in sc grain r =
    same_grain r.grain grain
    && in_scope sc r.bucket.org_id r.bucket.user_id (some r.bucket.bucket_start)

abbrev pub row_in : Scope → LogRow → Bool
row_in sc r = in_scope sc r.org_id r.user_id r.entry.ts

abbrev pub upload_in : Scope → Upload → Bool
upload_in sc u = in_scope sc u.org_id u.user_id (some u.created_at)

abbrev pub rollup_of_tenant : Scope → Rollup → Bool
rollup_of_tenant sc r = in_tenancy sc r.bucket.org_id r.bucket.user_id

-- `COUNT(DISTINCT …)`
abbrev pub distinct : List Text → ℕ
distinct [] = 0
distinct (s ∷ ss) = (if any (text_eq s) ss then 0 else 1) + distinct ss

abbrev pub lowest : List ℕ → Option ℕ
lowest [] = none
lowest (n ∷ ns) = elim (lowest ns) [ none ↦ some n | some m ↦ some (if leb n m then n else m) ]

abbrev pub highest : List ℕ → Option ℕ
highest [] = none
highest (n ∷ ns) = elim (highest ns) [ none ↦ some n | some m ↦ some (if leb m n then n else m) ]

-- A share of nothing is none.
abbrev pub share : ℕ → ℕ → Option (ℕ × ℕ)
share part whole = if ltb 0 whole then some (part, whole) else none

pub record Summary : Type 0 where
  pub requests : ℕ
  pub errors : ℕ
  pub success_rate : Option (ℕ × ℕ)
  pub bytes_in : ℕ
  pub bytes_out : ℕ
  pub cache_hits : ℕ
  pub cache_total : ℕ
  pub cache_hit_rate : Option (ℕ × ℕ)
  pub latency_p50 : Option ℕ
  pub latency_p95 : Option ℕ
  pub latency_p99 : Option ℕ
  pub hosts : ℕ
  pub uploads : ℕ
  pub data_start : Option ℕ
  pub data_end : Option ℕ
  pub is_empty_view : Bool

-- The four queries of `DashboardSummary`.
abbrev pub hourly : Scope → Db → List Rollup
hourly sc d = keep_if (rollup_in sc Grain.hour) d.entry_rollups

abbrev pub latencies_in : Scope → Db → List ℕ
latencies_in sc d = latencies (keep_if (row_in sc) d.log_entries)

abbrev pub uploads_in : Scope → Db → ℕ
uploads_in sc d = length (keep_if (upload_in sc) d.uploads)

abbrev pub starts_of : Scope → Db → List ℕ
starts_of sc d =
    map (λ (r : Rollup). r.bucket.bucket_start) (keep_if (rollup_of_tenant sc) d.entry_rollups)

unfoldable pub summarized : List Rollup → List ℕ → ℕ → List ℕ → Summary
unfolding percentile_disc
summarized rollups ms uploads starts =
    let requests = sum_of (λ (r : Rollup). r.requests) rollups in
    let errors = sum_of (λ (r : Rollup). r.errors) rollups in
    let hits = sum_of (λ (r : Rollup). r.cache_hits) rollups in
    let answers = sum_of (λ (r : Rollup). r.cache_total) rollups in
    record {
      requests = requests;
      errors = errors;
      success_rate = share (requests - errors) requests;
      bytes_in = sum_of (λ (r : Rollup). r.bytes_in) rollups;
      bytes_out = sum_of (λ (r : Rollup). r.bytes_out) rollups;
      cache_hits = hits;
      cache_total = answers;
      cache_hit_rate = share hits answers;
      latency_p50 = percentile_disc 50 ms;
      latency_p95 = percentile_disc 95 ms;
      latency_p99 = percentile_disc 99 ms;
      hosts = distinct (map (λ (r : Rollup). r.bucket.host) rollups);
      uploads = uploads;
      data_start = lowest starts;
      data_end = highest starts;
      is_empty_view = requests == 0 && uploads == 0;
    }

-- `DashboardSummary`
unfoldable pub dashboard_summary : Scope → Exec Error Summary
unfolding in_scope summarized
dashboard_summary sc = do
  rollups ← select λ w. ok (hourly sc w.db)
  ms ← select λ w. ok (latencies_in sc w.db)
  uploads ← select λ w. ok (uploads_in sc w.db)
  starts ← select λ w. ok (starts_of sc w.db)
  pure (summarized rollups ms uploads starts)

-- `topDimensions`: the column of a dimension.
pub data Dimension : Type 0 where
  host url user ip category : Dimension

unfoldable pub dimension_of : Text → Option Dimension
dimension_of s =
    if text_eq s (codes "host")
    then some host
    else if text_eq s (codes "url")
    then some url
    else if text_eq s (codes "user")
    then some user
    else if text_eq s (codes "ip")
    then some ip
    else if text_eq s (codes "category")
    then some category
    else none

abbrev label : Dimension → LogRow → Text
label host r = r.entry.host
label url r = r.entry.url
label user r = r.entry.username
label ip r = r.entry.client_ip
label category r = r.entry.category

pub record TopRow : Type 0 where
  pub name : Text
  pub requests : ℕ
  pub errors : ℕ
  pub bytes : ℕ

abbrev traffic : LogRow → ℕ
traffic r = or_zero r.entry.req_bytes + or_zero r.entry.resp_bytes

abbrev first_row : Text → LogRow → TopRow
first_row l r = record {
  name = l;
  requests = 1;
  errors = if is_error r then 1 else 0;
  bytes = traffic r;
}

abbrev one_more : LogRow → TopRow → TopRow
one_more r t = record t {
  requests = suc t.requests;
  errors = (if is_error r then 1 else 0) + t.errors;
  bytes = traffic r + t.bytes;
}

-- `GROUP BY label`
abbrev add_label : Text → LogRow → List TopRow → List TopRow
add_label l r [] = first_row l r ∷ []
add_label l r (t ∷ ts) =
    let later = add_label l r ts in if text_eq t.name l then one_more r t ∷ ts else t ∷ later

abbrev pub by_label : Dimension → List LogRow → List TopRow
by_label dim [] = []
by_label dim (r ∷ rows) =
    let rest = by_label dim rows in
    if is_empty (label dim r) then rest else add_label (label dim r) r rest

abbrev insert_top : TopRow → List TopRow → List TopRow
insert_top t [] = t ∷ []
insert_top t (u ∷ us) =
    let later = insert_top t us in if leb u.requests t.requests then t ∷ u ∷ us else u ∷ later

abbrev pub most_first : List TopRow → List TopRow
most_first [] = []
most_first (t ∷ ts) = insert_top t (most_first ts)

-- A limit out of its range is replaced.
unfoldable pub limit_or : ℕ → ℕ → ℕ → ℕ
limit_or default most limit = if limit == 0 || ltb most limit then default else limit

-- `DashboardTop`
unfoldable pub dashboard_top : Scope → Dimension → ℕ → Exec Error (List TopRow)
unfolding in_scope is_error limit_or
dashboard_top sc dim limit = select λ w. ok (
    take (limit_or 10 100 limit) (most_first (by_label dim (keep_if (row_in sc) w.db.log_entries))))
