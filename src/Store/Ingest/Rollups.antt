-- ===== src/Store/Ingest/Rollups.antt =====
-- backend/gateway/internal/store/ingest.go: the query that `BuildRollups` runs for a grain.
use log_monitor_tenex.Prelude.{
  ℕ, Text, codes, text_eq, Bool, true, false, not, Option, none, some, List, [], ◌∷◌, ◌++◌, map,
  length, if◌then◌else◌, keep_if, count_if, any, ◌==◌, ◌&&◌, ◌||◌, leb, to_upper, get_elem?, ◌/◌,
  ◌*◌, ◌+◌, ◌-◌,
}
use log_monitor_tenex.Parser.{is_empty}
use log_monitor_tenex.Store.Tables.{LogRow, Rollup, Bucket, Grain}

-- `date_trunc`
unfoldable pub trunc : Grain → ℕ → ℕ
trunc Grain.minute t = t / 60 * 60
trunc Grain.hour t = t / 3600 * 3600

abbrev pub same_bucket : Bucket → Bucket → Bool
same_bucket a b =
    a.org_id == b.org_id
    && a.user_id == b.user_id
    && a.upload_id == b.upload_id
    && text_eq a.host b.host
    && a.bucket_start == b.bucket_start

abbrev pub bucket_at : Grain → LogRow → ℕ → Bucket
bucket_at grain r t = record {
  org_id = r.org_id;
  user_id = r.user_id;
  upload_id = r.upload_id;
  host = r.entry.host;
  bucket_start = trunc grain t;
}

-- The rows of a bucket, the latest on top.
pub record Group : Type 0 where
  pub bucket : Bucket
  pub members : List LogRow

-- `GROUP BY`
unfoldable pub add_to_group : Bucket → LogRow → List Group → List Group
add_to_group b r [] = record { bucket = b; members = r ∷ [] } ∷ []
add_to_group b r (g ∷ gs) =
    let later = add_to_group b r gs in
    if same_bucket g.bucket b then record g { members = r ∷ g.members } ∷ gs else g ∷ later

-- A row without a time is in no bucket.
unfoldable pub group_row : Grain → LogRow → Option ℕ → List Group → List Group
unfolding add_to_group trunc
group_row grain r none gs = gs
group_row grain r (some t) gs = add_to_group (bucket_at grain r t) r gs

unfoldable pub grouped : Grain → List LogRow → List Group
unfolding group_row
grouped grain [] = []
grouped grain (r ∷ rows) = group_row grain r r.entry.ts (grouped grain rows)

abbrev pub or_zero : Option ℕ → ℕ
or_zero none = 0
or_zero (some n) = n

-- `SUM`
abbrev pub sum_of {ℓ} : {A : Type ℓ} → (A → ℕ) → List A → ℕ
sum_of f [] = 0
sum_of f (x ∷ xs) = f x + sum_of f xs

abbrev pub one_if : Bool → ℕ
one_if b = if b then 1 else 0

abbrev at_least_400 : Option ℕ → Bool
at_least_400 none = false
at_least_400 (some code) = leb 400 code

unfoldable pub is_error : LogRow → Bool
is_error r = at_least_400 r.entry.resp_code

abbrev pub reports_cache : LogRow → Bool
reports_cache r = not (is_empty r.entry.cache_status)

abbrev starts_with : Text → Text → Bool
starts_with [] s = true
starts_with (p ∷ prefix) [] = false
starts_with (p ∷ prefix) (c ∷ s) = p == c && starts_with prefix s

abbrev occurs_in : Text → Text → Bool
occurs_in part [] = starts_with part []
occurs_in part (c ∷ s) = starts_with part (c ∷ s) || occurs_in part s

-- `upper(cache_status) LIKE '%HIT%'`
unfoldable pub is_hit : LogRow → Bool
unfolding to_upper
is_hit r = reports_cache r && occurs_in (codes "HIT") (map to_upper r.entry.cache_status)

abbrev pub latencies : List LogRow → List ℕ
latencies [] = []
latencies (r ∷ rows) = elim r.entry.latency_ms [
  | none ↦ latencies rows
  | some n ↦ n ∷ latencies rows
]

abbrev pub insert_sorted : ℕ → List ℕ → List ℕ
insert_sorted n [] = n ∷ []
insert_sorted n (m ∷ ms) =
    let later = insert_sorted n ms in if leb n m then n ∷ m ∷ ms else m ∷ later

abbrev pub sorted : List ℕ → List ℕ
sorted [] = []
sorted (n ∷ ns) = insert_sorted n (sorted ns)

-- `percentile_disc`, at a number of hundredths: the first value whose place in the order, as a share
-- of all, is not below.
unfoldable pub percentile_disc : ℕ → List ℕ → Option ℕ
percentile_disc hundredths values =
    get_elem? (sorted values) ((hundredths * length values + 99) / 100 - 1)

-- The SELECT list.
unfoldable pub rollup_of : Grain → Group → Rollup
unfolding is_error is_hit percentile_disc
rollup_of grain g = record {
  bucket = g.bucket;
  grain = grain;
  requests = length g.members;
  bytes_in = sum_of (λ r. or_zero r.entry.resp_bytes) g.members;
  bytes_out = sum_of (λ r. or_zero r.entry.req_bytes) g.members;
  errors = count_if is_error g.members;
  cache_hits = count_if is_hit g.members;
  cache_total = count_if reports_cache g.members;
  latency_p50 = percentile_disc 50 (latencies g.members);
  latency_p95 = percentile_disc 95 (latencies g.members);
  latency_p99 = percentile_disc 99 (latencies g.members);
  latency_count = length (latencies g.members);
}

unfoldable pub entry_rollups_of : Grain → List LogRow → List Rollup
unfolding grouped rollup_of
entry_rollups_of grain rows = map (rollup_of grain) (grouped grain rows)

abbrev pub same_grain : Grain → Grain → Bool
same_grain Grain.minute Grain.minute = true
same_grain Grain.hour Grain.hour = true
same_grain _ _ = false

abbrev pub same_key : Rollup → Rollup → Bool
same_key a b = same_grain a.grain b.grain && same_bucket a.bucket b.bucket

-- `ON CONFLICT … DO UPDATE`: a row with the same key is replaced.
unfoldable pub upsert : List Rollup → List Rollup → List Rollup
upsert new old = keep_if (λ r. not (any (same_key r) new)) old ++ new
