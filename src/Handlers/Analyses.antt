-- ===== src/Handlers/Analyses.antt =====
-- backend/gateway/internal/handlers/analyses.go: starting and reading analyses.
pub mod Launch
pub mod Redaction
use log_monitor_tenex.Prelude.{
  ℕ, zero, suc, ◌+◌, String, Text, codes, text_eq, Bool, true, false, not, Option, none, some, List,
  [], ◌∷◌, map, ltb, leb, ◌==◌, if◌then◌else◌,
}
use log_monitor_tenex.Store.Tables.{User, Upload, Analysis, Anomaly}
use log_monitor_tenex.Store.Analyses.{
  create_analysis, analysis_by_id, anomalies_of, count_entries, fail_analysis,
}
use log_monitor_tenex.Authz.Levels.{Level, rank}
use log_monitor_tenex.Authz.{AuthzError, not_found, forbidden, store_failed, require}
use log_monitor_tenex.Api.{Api}
use log_monitor_tenex.Queue.{publish_analysis}
use log_monitor_tenex.Http.{
  Response, Handler, Body, started_body, findings_body, json, failure, fail_if, or_fail,
  or_fail_with,
}
use log_monitor_tenex.World.{
  World, Job, JobKind, Exec, Result, ok, err, Error, pure, raise, try, or_else, ◌>>=◌, ◌>>◌,
}

-- A window that is not positive is 0 here.
pub record AnalyzeRequest : Type 0 where
  pub scope : Text
  pub baseline_window_days : Option ℕ

abbrev pub default_window : Option ℕ → ℕ
default_window none = 30
default_window (some zero) = 30
default_window (some (suc n)) = suc n

-- `normaliseScope`: nothing where the window is too long.
unfoldable pub normalise_scope : Text → Option ℕ → Option (Text × Option ℕ)
normalise_scope scope window =
    if not (text_eq scope (codes "history"))
    then some (codes "file", none)
    else if ltb 365 (default_window window)
    then none
    else some (codes "history", some (default_window window))

-- `errNoQueue`, and the errors of the store and the queue.
pub data LaunchError : Type 0 where
  no_queue : LaunchError
  launch_failed : Error → LaunchError

abbrev pub job_for : Analysis → Upload → Text → Option ℕ → Job
job_for a up scope window = record {
  kind = JobKind.map_job;
  analysis_id = a.id;
  upload_id = up.id;
  org_id = up.org_id;
  user_id = up.user_id;
  shard = 0;
  shard_count = 0;
  offset = 0;
  limit = 0;
  scope = scope;
  baseline_window_days = window;
}

-- What follows on the answer of the queue: a row that nothing will consume is marked failed.
abbrev pub settle : Analysis → Result Error ℕ → Exec LaunchError (Analysis × ℕ)
settle a (ok shards) = pure (a, shards)
settle a (err e) = do try {E = Error} (fail_analysis a.id); raise (launch_failed e)

-- `launchAnalysis`
unfoldable pub launch_analysis :
    Api → Upload → Text → Option ℕ → ℕ → Exec LaunchError (Analysis × ℕ)
launch_analysis api up scope window entries = if not api.has_queue then raise no_queue else do
  a ← or_else launch_failed (create_analysis up.org_id up.id scope window)
  published ← try (publish_analysis api (job_for a up scope window) entries api.shard_size)
  settle a published

-- `failAuthz`
abbrev pub authz_failure : AuthzError → Response
authz_failure AuthzError.forbidden = failure 403 "You do not have access to this"
authz_failure AuthzError.not_found = failure 404 "Not found"
authz_failure _ = failure 500 "Something went wrong"

abbrev launch_failure : LaunchError → Response
launch_failure no_queue =
    failure 503 "the analysis queue is unavailable; no worker can pick this up"
launch_failure _ = failure 500 "Could not start the analysis"

-- `startAnalysis`; an empty body is a request with no scope and no window.
unfoldable pub start_analysis : Api → User → Text → Option AnalyzeRequest → Handler
unfolding normalise_scope
start_analysis api caller path_id body = do
  upload_id ← or_fail (api.parse_uuid path_id) 400 "id must be a uuid"
  (_, upload) ← or_else authz_failure (require caller upload_id Level.full)
  req ← or_fail body 400 "invalid request body"
  (scope, window) ←
      or_fail (normalise_scope req.scope req.baseline_window_days) 400
        "baseline_window_days cannot exceed 365"
  entries ← or_fail_with (count_entries upload_id) 500 "Could not start the analysis"
  (analysis, shards) ← or_else launch_failure (launch_analysis api upload scope window entries)
  pure (json 202 (started_body analysis scope shards entries))

abbrev pub without_rows : Anomaly → Anomaly
without_rows a = record a { entry_ids = [] }

-- The rows that a finding cites are for the full tier.
unfoldable pub redact : Level → List Anomaly → List Anomaly
unfolding rank
redact level found = if ltb (rank level) (rank Level.full) then map without_rows found else found

-- `getAnalysis`
unfoldable pub get_analysis : Api → User → Text → Handler
unfolding redact
get_analysis api caller path_id = do
  id ← or_fail (api.parse_uuid path_id) 400 "id must be a uuid"
  analysis ← or_fail_with (analysis_by_id id) 404 "Analysis not found"
  (level, _) ← or_else authz_failure (require caller analysis.upload_id Level.summary)
  found ← or_fail_with (anomalies_of id) 500 "Could not load findings"
  pure (json 200 (findings_body analysis (redact level found) level))
