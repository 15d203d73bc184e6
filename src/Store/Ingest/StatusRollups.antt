-- ===== src/Store/Ingest/StatusRollups.antt =====
-- backend/gateway/internal/store/ingest.go: the query of `buildStatusRollups`.
use log_monitor_tenex.Prelude.{
  ℕ, Text, Bool, true, false, not, Option, none, some, List, [], ◌∷◌, ◌++◌, map, length, keep_if,
  any, ltb, ◌==◌, ◌&&◌, if◌then◌else◌,
}
use log_monitor_tenex.Parser.{is_empty}
use log_monitor_tenex.Store.Tables.{LogRow, StatusRollup, Grain}
use log_monitor_tenex.Store.Ingest.Rollups.{trunc, latencies, percentile_disc}

-- The columns of the GROUP BY, beside the upload's own.
pub record StatusBucket : Type 0 where
  pub org_id : ℕ
  pub user_id : ℕ
  pub upload_id : ℕ
  pub bucket_start : ℕ
  pub resp_code : ℕ

pub record StatusGroup : Type 0 where
  pub bucket : StatusBucket
  pub members : List LogRow

abbrev same_status : StatusBucket → StatusBucket → Bool
same_status a b =
    a.org_id == b.org_id
    && a.user_id == b.user_id
    && a.upload_id == b.upload_id
    && a.bucket_start == b.bucket_start
    && a.resp_code == b.resp_code

abbrev status_at : LogRow → ℕ → ℕ → StatusBucket
status_at r t code = record {
  org_id = r.org_id;
  user_id = r.user_id;
  upload_id = r.upload_id;
  bucket_start = trunc Grain.hour t;
  resp_code = code;
}

unfoldable pub add_to_status : StatusBucket → LogRow → List StatusGroup → List StatusGroup
add_to_status b r [] = record { bucket = b; members = r ∷ [] } ∷ []
add_to_status b r (g ∷ gs) =
    let later = add_to_status b r gs in
    if same_status g.bucket b then record g { members = r ∷ g.members } ∷ gs else g ∷ later

-- A row without a time or without a code is in no bucket.
unfoldable pub group_status : LogRow → Option ℕ → Option ℕ → List StatusGroup → List StatusGroup
unfolding add_to_status trunc
group_status r none code gs = gs
group_status r (some t) none gs = gs
group_status r (some t) (some code) gs = add_to_status (status_at r t code) r gs

unfoldable pub grouped_status : List LogRow → List StatusGroup
unfolding group_status
grouped_status [] = []
grouped_status (r ∷ rows) = group_status r r.entry.ts r.entry.resp_code (grouped_status rows)

-- The order of texts, character by character.
abbrev text_before : Text → Text → Bool
text_before [] [] = false
text_before [] (d ∷ t) = true
text_before (c ∷ s) [] = false
text_before (c ∷ s) (d ∷ t) = let later = text_before s t in if c == d then later else ltb c d

abbrev lesser : Text → Text → Text
lesser s t = if text_before t s then t else s

-- `MIN(reason) FILTER (WHERE reason IS NOT NULL)`, empty for NULL.
abbrev least_reason : List LogRow → Text
least_reason [] = []
least_reason (r ∷ rows) =
    let rest = least_reason rows in
    if is_empty r.entry.reason
    then rest
    else if is_empty rest
    then r.entry.reason
    else lesser r.entry.reason rest

unfoldable pub status_rollup_of : StatusGroup → StatusRollup
unfolding percentile_disc
status_rollup_of g = record {
  org_id = g.bucket.org_id;
  user_id = g.bucket.user_id;
  upload_id = g.bucket.upload_id;
  bucket_start = g.bucket.bucket_start;
  resp_code = g.bucket.resp_code;
  reason = least_reason g.members;
  requests = length g.members;
  latency_p95 = percentile_disc 95 (latencies g.members);
}

unfoldable pub status_rollups_of : List LogRow → List StatusRollup
unfolding grouped_status status_rollup_of
status_rollups_of rows = map status_rollup_of (grouped_status rows)

abbrev same_status_key : StatusRollup → StatusRollup → Bool
same_status_key a b =
    a.org_id == b.org_id
    && a.user_id == b.user_id
    && a.upload_id == b.upload_id
    && a.bucket_start == b.bucket_start
    && a.resp_code == b.resp_code

unfoldable pub upsert_status : List StatusRollup → List StatusRollup → List StatusRollup
upsert_status new old = keep_if (λ r. not (any (same_status_key r) new)) old ++ new
