-- ===== src/Handlers/Dashboard.antt =====
-- backend/gateway/internal/handlers/dashboard.go and search.go: which figures and findings a caller
-- is shown.
--
-- A parameter of the query string that is missing is empty; a limit that cannot be read or is not
-- positive is 0.
pub mod SameRule
pub mod Similar
pub mod Views
pub mod Tenancy
use log_monitor_tenex.Prelude.{
  ℕ, zero, suc, String, Text, codes, text_eq, Bool, true, false, not, Option, none, some, List, [],
  ◌∷◌, ltb, ◌&&◌, if◌then◌else◌, ◌+◌, ◌-◌, ◌*◌, trim_space,
}
use log_monitor_tenex.Parser.{is_empty}
use log_monitor_tenex.Parser.Zscaler.Values.{Formats, Stamp}
use log_monitor_tenex.Store.Tables.{User, Anomaly, is_admin}
use log_monitor_tenex.Store.Dashboard.{
  Scope, Summary, TopRow, Dimension, dimension_of, dashboard_summary, dashboard_top,
}
use log_monitor_tenex.Store.Series.{dashboard_series, status_codes}
use log_monitor_tenex.Store.Findings.{
  Finding, FindingCount, Hit, action_plan, search_findings_text, finding_breakdown, list_audit,
}
use log_monitor_tenex.Handlers.Request.{byte_length}
use log_monitor_tenex.Http.{
  Response, Handler, Body, summary_body, series_body, codes_body, top_body, audit_body, plan_body,
  hits_body, json, failure, fail_if, or_fail, or_fail_with,
}
use log_monitor_tenex.World.{
  World, Exec, Result, ok, err, Error, pure, gets, lift, select, try, ◌>>=◌, ◌>>◌,
}

pub record DashboardQuery : Type 0 where
  pub from : Text
  pub to : Text
  pub scope : Text

-- `defaultWindowDays`, in seconds.
abbrev pub default_window : ℕ
default_window = 30 * 86400

-- A bound of the window: given, or the default; refused where it cannot be read.
unfoldable pub bound : Formats → Text → ℕ → Option ℕ
bound formats v default =
    if is_empty v
    then some default
    else elim (formats.parse_time (codes "2006-01-02T15:04:05Z07:00") v) [
      | none ↦ none
      | some t ↦ some t.moment
    ]

abbrev pub scope_of : User → ℕ → ℕ → Option ℕ → Scope
scope_of caller from to user = record {
  org_id = caller.org_id;
  user_id = user;
  from = from;
  to = to;
}

-- `scopeFrom`
unfoldable pub scope_from : Formats → User → DashboardQuery → Exec Response Scope
unfolding bound is_admin
scope_from formats caller q = do
  now ← gets (λ w. w.now)
  from ←
      or_fail (bound formats q.from (now - default_window)) 400 "from must be an RFC3339 timestamp"
  to ← or_fail (bound formats q.to (now + 60)) 400 "to must be an RFC3339 timestamp"
  fail_if (ltb to from) 400 "to is before from"
  fail_if (text_eq q.scope (codes "org") && not (is_admin caller.role)) 403
      "Only an administrator can view organization-wide figures"
  pure (scope_of caller from to (if text_eq q.scope (codes "org") then none else some caller.id))

-- `scopeLabel`, of the user that a scope is bound to.
abbrev pub scope_label : Option ℕ → String
scope_label none = "org"
scope_label (some id) = "self"

-- `dashboardSummary`
unfoldable pub dashboard_summary_handler : Formats → User → DashboardQuery → Handler
unfolding scope_from
dashboard_summary_handler formats caller q = do
  sc ← scope_from formats caller q
  summary ← or_fail_with (dashboard_summary sc) 500 "Could not load the summary"
  findings ← or_fail_with (finding_breakdown sc) 500 "Could not load findings"
  pure (json 200 (summary_body summary findings (scope_label sc.user_id) sc.from sc.to))

abbrev or_host : Text → Text
or_host s = if is_empty s then codes "host" else s

-- `dashboardTop`: any error of the store is answered as an unknown dimension.
unfoldable pub dashboard_top_handler : Formats → User → DashboardQuery → Text → ℕ → Handler
unfolding scope_from dimension_of
dashboard_top_handler formats caller q dimension limit = do
  sc ← scope_from formats caller q
  dim ←
      or_fail (dimension_of (or_host dimension)) 400
        "dimension must be one of: host, url, user, ip, category"
  rows ←
      or_fail_with (dashboard_top sc dim limit) 400
        "dimension must be one of: host, url, user, ip, category"
  pure (json 200 (top_body rows (or_host dimension)))

-- `dashboardSeries`
unfoldable pub dashboard_series_handler : Formats → User → DashboardQuery → Text → Handler
unfolding scope_from
dashboard_series_handler formats caller q grain = do
  sc ← scope_from formats caller q
  points ← or_fail_with (dashboard_series sc grain) 500 "Could not load the series"
  pure (json 200 (series_body points (scope_label sc.user_id)))

-- `statusCodes`
unfoldable pub status_codes_handler : Formats → User → DashboardQuery → Handler
unfolding scope_from
status_codes_handler formats caller q = do
  sc ← scope_from formats caller q
  rows ← or_fail_with (status_codes sc) 500 "Could not load the status breakdown"
  pure (json 200 (codes_body rows))

-- `listAudit`
unfoldable pub list_audit_handler : User → ℕ → Handler
unfolding is_admin
list_audit_handler caller limit = do
  fail_if (not (is_admin caller.role)) 403 "Only an administrator can view the audit log"
  found ← or_fail_with (list_audit caller.org_id limit) 500 "Could not load the audit log"
  pure (json 200 (audit_body found))

-- `actionPlan`
unfoldable pub action_plan_handler : User → ℕ → Handler
action_plan_handler caller limit = do
  items ← or_fail_with (action_plan caller limit) 500 "Could not load the action plan"
  pure (json 200 (plan_body items))

-- `HasEmbeddings`, with the number of embeddings that an organization has.
unfoldable pub has_embeddings : (ℕ → ℕ) → ℕ → Exec Error Bool
has_embeddings embeddings org = select λ _. ok (ltb 0 (embeddings org))

abbrev or_false : Result Error Bool → Bool
or_false (ok b) = b
or_false (err e) = false

-- `search`
unfoldable pub search_handler : (Text → Anomaly → Option ℕ) → (ℕ → ℕ) → User → Text → ℕ → Handler
unfolding trim_space byte_length
search_handler rank embeddings caller q limit = do
  fail_if (is_empty (trim_space q)) 400 "q is required"
  fail_if (ltb 500 (byte_length (trim_space q))) 400 "q is too long"
  hits ← or_fail_with (search_findings_text rank caller (trim_space q) limit) 500 "Search failed"
  semantic ← try (has_embeddings embeddings caller.org_id)
  pure (json 200 (hits_body (trim_space q) hits (or_false semantic)))
