-- ===== src/Examples/Figures.antt =====
-- The dashboard and the search of the sample organization.
use log_monitor_tenex.Prelude.{
  ℕ, Text, codes, true, Option, none, some, [], ◌∷◌, ◌≡◌, ◌≤◌, refl, all, length,
}
use log_monitor_tenex.Store.Tables.{Anomaly, Analysis, AnalysisStatus}
use log_monitor_tenex.Store.Uploads.{visible}
use log_monitor_tenex.Store.Analyses.{by_urgency}
use log_monitor_tenex.Store.Dashboard.{Scope, Dimension, dashboard_summary, dashboard_top, limit_or}
use log_monitor_tenex.Store.Series.{dashboard_series, status_codes}
use log_monitor_tenex.Store.Findings.{
  Finding, Hit, action_plan, search_findings_text, visible_finding,
}
use log_monitor_tenex.Http.{or_fail, fail_if}
use log_monitor_tenex.World.{World, select, fails, called, ◌>>=◌}
use log_monitor_tenex.Handlers.Dashboard.{DashboardQuery, scope_from, bound}
use log_monitor_tenex.Handlers.Dashboard.Tenancy.{figures_blind}
use log_monitor_tenex.Handlers.Dashboard.Views.{as_seen}
use log_monitor_tenex.Handlers.Dashboard.SameRule.{findings_visible}
use log_monitor_tenex.Examples.Sample.{start, alice, upload}
use log_monitor_tenex.Examples.Files.{formats}

abbrev query : DashboardQuery
query = record { from = []; to = []; scope = [] }

abbrev scope : Scope
scope = record { org_id = 7; user_id = some 1; from = 0; to = 1060 }

figures_blind_example :
    ((dashboard_summary scope (as_seen alice start)).0 ≡ (dashboard_summary scope start).0)
    × ((dashboard_top scope Dimension.host 5 (as_seen alice start)).0
        ≡ (dashboard_top scope Dimension.host 5 start).0)
    × ((dashboard_series scope (codes "minute") (as_seen alice start)).0
        ≡ (dashboard_series scope (codes "minute") start).0)
    × ((status_codes scope (as_seen alice start)).0 ≡ (status_codes scope start).0)
unfolding scope_from bound ◌>>=◌ or_fail fail_if
figures_blind_example =
    figures_blind formats alice query start start start scope Dimension.host 5 (codes "minute") refl

-- A finding on the sample upload.
abbrev analysis : Analysis
analysis = record {
  id = 40;
  org_id = 7;
  upload_id = 5;
  status = AnalysisStatus.done;
  scope = codes "file";
  baseline_window_days = none;
  created_at = 50;
}

abbrev anomaly : Anomaly
anomaly = record { id = 60; analysis_id = 40; urgency = 2; severity = 3; entry_ids = [] }

abbrev analysed : World
analysed = record start {
  db = record (start.db) { analyses = analysis ∷ []; anomalies = anomaly ∷ [] };
}

abbrev finding : Finding
finding = record { anomaly = anomaly; analysis = analysis; upload = upload }

abbrev rank : Text → Anomaly → Option ℕ
rank q a = some 1

findings_visible_example :
    (all (λ (x : Finding). visible alice 1000 analysed.db.access_grants x.upload) (finding ∷ [])
      ≡ true)
    × (all
          (λ (h : Hit). visible alice 1000 analysed.db.access_grants h.finding.upload)
          (record { finding = finding; rank = 1 } ∷ [])
        ≡ true)
    × (length {A = Finding} (finding ∷ []) ≤ 100)
    × (length {A = Hit} (record { finding = finding; rank = 1 } ∷ []) ≤ 100)
unfolding action_plan search_findings_text visible_finding by_urgency limit_or select fails called
findings_visible_example =
    findings_visible rank alice (codes "q") 5 analysed (finding ∷ [])
      (record { finding = finding; rank = 1 } ∷ []) refl refl
