-- ===== src/Store/Analyses.antt =====
-- backend/gateway/internal/store/analyses.go: analyses and their findings.
pub mod Latest
pub mod Timings
use log_monitor_tenex.Prelude.{
  ℕ, Text, codes, text_eq, Bool, Option, none, some, List, [], ◌∷◌, ◌++◌, ◌&&◌, ◌||◌, ◌==◌, ltb,
  if◌then◌else◌, find?, keep_if, update_if, count_if,
}
use log_monitor_tenex.Store.Tables.{Analysis, AnalysisStatus, Anomaly, Db}
use log_monitor_tenex.World.{
  Exec, Result, ok, err, Error, unavailable, select, update, fresh_id, or_not_found, ◌>>=◌,
}

-- The CHECK constraint `baseline_window_matches_scope`, with the enum `analysis_scope`.
unfoldable pub scope_fits : Text → Option ℕ → Bool
scope_fits scope none = text_eq scope (codes "file")
scope_fits scope (some d) = text_eq scope (codes "history")

abbrev pub new_analysis : ℕ → ℕ → ℕ → Text → Option ℕ → ℕ → Analysis
new_analysis id org upload scope window now = record {
  id = id;
  org_id = org;
  upload_id = upload;
  status = AnalysisStatus.queued;
  scope = scope;
  baseline_window_days = window;
  created_at = now;
}

abbrev with_analysis : Analysis → Db → Db
with_analysis a d = record d { analyses = d.analyses ++ a ∷ [] }

abbrev insert_analysis : Analysis → Db → Result Error (Analysis × Db)
insert_analysis a d =
    if scope_fits a.scope a.baseline_window_days then ok (a, with_analysis a d) else err unavailable

-- `CreateAnalysis`
unfoldable pub create_analysis : ℕ → ℕ → Text → Option ℕ → Exec Error Analysis
unfolding scope_fits
create_analysis org upload scope window = do
  id ← fresh_id
  update (λ w. insert_analysis (new_analysis id org upload scope window w.now) w.db)

-- `AnalysisByID`
unfoldable pub analysis_by_id : ℕ → Exec Error Analysis
analysis_by_id id = select λ w. or_not_found (find? (λ a. a.id == id) w.db.analyses)

abbrev pub later_of : Analysis → Option Analysis → Option Analysis
later_of a none = some a
later_of a (some b) = if ltb a.created_at b.created_at then some b else some a

-- The one that was made last; of several made at once, the first.
unfoldable pub latest : List Analysis → Option Analysis
latest [] = none
latest (a ∷ rest) = later_of a (latest rest)

-- `LatestAnalysisFor`
unfoldable pub latest_analysis_for : ℕ → Exec Error Analysis
unfolding latest
latest_analysis_for upload =
    select λ w. or_not_found (latest (keep_if (λ a. a.upload_id == upload) w.db.analyses))

-- Most urgent first, then most severe; equal ones keep their order.
unfoldable pub before : Anomaly → Anomaly → Bool
before a b = ltb b.urgency a.urgency || (a.urgency == b.urgency && ltb b.severity a.severity)

unfoldable pub insert_by_urgency : Anomaly → List Anomaly → List Anomaly
unfolding before
insert_by_urgency a [] = a ∷ []
insert_by_urgency a (b ∷ bs) = if before b a then b ∷ insert_by_urgency a bs else a ∷ b ∷ bs

unfoldable pub by_urgency : List Anomaly → List Anomaly
unfolding insert_by_urgency
by_urgency [] = []
by_urgency (a ∷ rest) = insert_by_urgency a (by_urgency rest)

-- `Anomalies`
unfoldable pub anomalies_of : ℕ → Exec Error (List Anomaly)
unfolding by_urgency
anomalies_of analysis =
    select λ w. ok (by_urgency (keep_if (λ f. f.analysis_id == analysis) w.db.anomalies))

-- `CountEntries`
unfoldable pub count_entries : ℕ → Exec Error ℕ
count_entries upload = select λ w. ok (count_if (λ e. e.upload_id == upload) w.db.log_entries)

-- `FailAnalysis`
unfoldable pub fail_analysis : ℕ → Exec Error Unit
fail_analysis id = update λ w. ok (
  tt,
  record (w.db) {
    analyses =
        update_if (λ a. a.id == id) (λ a. record a { status = AnalysisStatus.failed })
          w.db.analyses;
  },
)
