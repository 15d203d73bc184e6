-- ===== src/Server/Dispatch.antt =====
-- backend/gateway/internal/handlers/handlers.go, `Routes`: the handler of each route, behind the
-- session where `req` wraps it; and backend/gateway/cmd/gateway/main.go, `run`: the filters around
-- the mux.
--
-- `create_upload` is `createUpload` for the body of the request where it returns: the handler of
-- Handlers.Uploads.Create has no answer where `Parse` does not end.
use log_monitor_tenex.Prelude.{ℕ, Text, Bool, Option}
use log_monitor_tenex.Store.Tables.{User, Anomaly}
use log_monitor_tenex.Parser.Zscaler.Values.{Formats}
use log_monitor_tenex.Api.{Api}
use log_monitor_tenex.Http.{Handler, ProcessMetrics, failure}
use log_monitor_tenex.World.{raise}
use log_monitor_tenex.Session.{require}
use log_monitor_tenex.Filters.{Edge, gated}
use log_monitor_tenex.Filters
use log_monitor_tenex.Handlers.Request.{Request}
use log_monitor_tenex.Handlers.Auth.{RegisterRequest, LoginRequest, register, login, logout, me}
use log_monitor_tenex.Handlers.Mfa.{
  enroll_mfa, activate_mfa_handler, verify_mfa, disable_mfa_handler, reset_member_mfa,
  set_org_mfa_policy,
}
use log_monitor_tenex.Handlers.Org.{InviteRequest, list_org_users_handler, invite_member}
use log_monitor_tenex.Handlers.Grants.{
  GrantRequest, list_grants_handler, create_grant, delete_grant_handler, list_uploads_handler,
}
use log_monitor_tenex.Handlers.Uploads.{delete_upload_handler}
use log_monitor_tenex.Handlers.Analyses.{AnalyzeRequest, start_analysis, get_analysis}
use log_monitor_tenex.Handlers.Dashboard.{
  DashboardQuery, dashboard_summary_handler, dashboard_series_handler, dashboard_top_handler,
  status_codes_handler, action_plan_handler, list_audit_handler, search_handler,
}
use log_monitor_tenex.Handlers.Operator.{health, metrics}
use log_monitor_tenex.Server.Routes.{Endpoint, Found, no_path, wrong_method, found, route_of}

-- What the handlers read of a request besides its addresses and cookies: the body, as `Decode`
-- reads it for each of them, the values of the query and two headers.
pub record Inputs : Type 0 where
  pub register_body : Option RegisterRequest
  pub login_body : Option LoginRequest
  pub code_body : Option Text
  pub invite_body : Option InviteRequest
  pub policy_body : Option Bool
  pub grant_body : Option GrantRequest
  pub analyze_body : Option AnalyzeRequest
  pub query : DashboardQuery
  pub grain : Text
  pub dimension : Text
  pub limit : ℕ
  pub search_text : Text
  pub metrics_token : Text
  pub authorization : Text

-- A request, as the filters, the cookies and the handlers see it.
pub record HttpRequest : Type 0 where
  pub edge : Filters.Request
  pub client : Request
  pub inputs : Inputs

-- What the server is run with besides `Api`: the reading of times, the rank and the embeddings of
-- the search, the token for the metrics and their figures.
pub record Parts : Type 0 where
  pub formats : Formats
  pub rank : Text → Anomaly → Option ℕ
  pub embeddings : ℕ → ℕ
  pub metrics_token : Text
  pub figures : ProcessMetrics
  pub create_upload : Inputs → User → Handler

-- A handler that anyone reaches, or one that `req` wraps.
pub data Guarded : Type 0 where
  anyone : Handler → Guarded
  member : (User → Handler) → Guarded

-- The second arguments of `HandleFunc`, with the wildcard of the path.
unfoldable pub handler_of : Api → Parts → Request → Inputs → Text → Endpoint → Guarded
handler_of api parts req i id Endpoint.health = anyone health
handler_of api parts req i id Endpoint.register = anyone (register api i.register_body)
handler_of api parts req i id Endpoint.login = anyone (login api req i.login_body)
handler_of api parts req i id Endpoint.logout = anyone logout
handler_of api parts req i id Endpoint.me = member me
handler_of api parts req i id Endpoint.verify_mfa = anyone (verify_mfa api req i.code_body)
handler_of api parts req i id Endpoint.enroll_mfa = member (enroll_mfa api)
handler_of api parts req i id Endpoint.activate_mfa =
    member (λ u. activate_mfa_handler api u i.code_body)
handler_of api parts req i id Endpoint.disable_mfa =
    member (λ u. disable_mfa_handler api u i.code_body)
handler_of api parts req i id Endpoint.list_org_users = member list_org_users_handler
handler_of api parts req i id Endpoint.invite_member =
    member (λ u. invite_member api u i.invite_body)
handler_of api parts req i id Endpoint.reset_member_mfa = member (λ u. reset_member_mfa api u id)
handler_of api parts req i id Endpoint.set_org_mfa_policy =
    member (λ u. set_org_mfa_policy u i.policy_body)
handler_of api parts req i id Endpoint.list_grants = member list_grants_handler
handler_of api parts req i id Endpoint.create_grant = member (λ u. create_grant api u i.grant_body)
handler_of api parts req i id Endpoint.delete_grant = member (λ u. delete_grant_handler api u id)
handler_of api parts req i id Endpoint.list_uploads = member list_uploads_handler
handler_of api parts req i id Endpoint.create_upload = member (parts.create_upload i)
handler_of api parts req i id Endpoint.start_analysis =
    member (λ u. start_analysis api u id i.analyze_body)
handler_of api parts req i id Endpoint.delete_upload = member (λ u. delete_upload_handler api u id)
handler_of api parts req i id Endpoint.get_analysis = member (λ u. get_analysis api u id)
handler_of api parts req i id Endpoint.dashboard_summary =
    member (λ u. dashboard_summary_handler parts.formats u i.query)
handler_of api parts req i id Endpoint.dashboard_series =
    member (λ u. dashboard_series_handler parts.formats u i.query i.grain)
handler_of api parts req i id Endpoint.dashboard_top =
    member (λ u. dashboard_top_handler parts.formats u i.query i.dimension i.limit)
handler_of api parts req i id Endpoint.status_codes =
    member (λ u. status_codes_handler parts.formats u i.query)
handler_of api parts req i id Endpoint.action_plan = member (λ u. action_plan_handler u i.limit)
handler_of api parts req i id Endpoint.list_audit = member (λ u. list_audit_handler u i.limit)
handler_of api parts req i id Endpoint.search =
    member (λ u. search_handler parts.rank parts.embeddings u i.search_text i.limit)
handler_of api parts req i id Endpoint.metrics =
    anyone (metrics parts.metrics_token i.metrics_token i.authorization parts.figures)

-- `req`
unfoldable pub guarded : Api → Option Text → Guarded → Handler
guarded api session (anyone h) = h
guarded api session (member f) = require api session f

-- The mux.
unfoldable pub mux : Api → Parts → HttpRequest → Found → Handler
unfolding handler_of guarded
mux api parts r no_path = raise (failure 404 "404 page not found")
mux api parts r wrong_method = raise (failure 405 "Method Not Allowed")
mux api parts r (found e id) =
    guarded api r.client.session_cookie (handler_of api parts r.client r.inputs id e)

-- The whole chain of `run`.
unfoldable pub server : Api → Edge → Parts → HttpRequest → Handler
unfolding mux route_of
server api edge parts r =
    gated api edge r.edge (mux api parts r (route_of r.edge.method r.edge.path))
