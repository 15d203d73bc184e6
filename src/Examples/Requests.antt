-- ===== src/Examples/Requests.antt =====
-- Requests to the whole server.
use log_monitor_tenex.Prelude.{Text, codes, Option, none, some, [], ◌≡◌, ◌⊎◌, refl, split}
use log_monitor_tenex.Store.Tables.{User}
use log_monitor_tenex.Http.{Handler, ProcessMetrics, no_content}
use log_monitor_tenex.World.{pure}
use log_monitor_tenex.World.{World}
use log_monitor_tenex.Session.{issue}
use log_monitor_tenex.Filters.{Method}
use log_monitor_tenex.Server.Routes.{
  Endpoint, route_of, found, routes, route, segment_of, match_path, serves,
}
use log_monitor_tenex.Server.Unambiguous.{route_of_lem}
use log_monitor_tenex.Server.Dispatch.{handler_of, member, HttpRequest, Inputs, Parts}
use log_monitor_tenex.Server.Guarded.{members_only, Named, Handled, TurnedAway}
use log_monitor_tenex.Examples.Sample.{gateway, start, bob}
use log_monitor_tenex.Examples.Edge.{edge}
use log_monitor_tenex.Examples.Files.{formats}

abbrev bobs_token : Option Text
unfolding issue
bobs_token = issue gateway bob 1000

abbrev inputs : Inputs
inputs = record {
  register_body = none;
  login_body = none;
  code_body = none;
  invite_body = none;
  policy_body = none;
  grant_body = none;
  analyze_body = none;
  query = record { from = []; to = []; scope = [] };
  grain = [];
  dimension = [];
  limit = 5;
  search_text = [];
  metrics_token = [];
  authorization = [];
}

-- An administrator asks for the audit log.
abbrev asking : HttpRequest
asking = record {
  edge = record {
    method = Method.get;
    path = codes "/api/audit";
    csrf_cookie = none;
    csrf_header = [];
    credentials = some (codes "edge", codes "open sesame");
  };
  client = record {
    forwarded_for = [];
    real_ip = [];
    remote_addr = codes "10.0.0.1:80";
    session_cookie = bobs_token;
    mfa_cookie = none;
  };
  inputs = inputs;
}

abbrev figures : ProcessMetrics
figures = record {
  uptime_seconds = 1;
  collected_at = 1000;
  goroutines = 9;
  memory_mb = 30;
  heap_mb = 12;
  gc_cycles = 2;
}

abbrev parts : Parts
parts = record {
  formats = formats;
  rank = λ _ _. none;
  embeddings = λ _. 0;
  metrics_token = [];
  figures = figures;
  create_upload =
      λ _ _. pure (record { status = 201; body = no_content; cookies = []; retry_after = none });
}

audit_route : route_of Method.get (codes "/api/audit") ≡ found Endpoint.list_audit []
unfolding route_of
audit_route = refl

members_only_example :
    ((f : User → Handler) × (handler_of gateway parts asking.client inputs [] Endpoint.list_audit
        ≡ member f)
      × (u : User) × (v : World) × Named gateway edge parts asking start u v
      × Handled gateway edge parts asking start f u v)
    ⊎ TurnedAway gateway edge parts asking start
members_only_example =
    members_only gateway edge parts asking start Endpoint.list_audit [] audit_route refl

route_of_lem_example :
    route_of Method.post (codes "/api/org/users/42/mfa/reset")
    ≡ found Endpoint.reset_member_mfa (codes "42")
unfolding routes route segment_of split match_path serves
route_of_lem_example =
    route_of_lem Method.post (codes "/api/org/users/42/mfa/reset") 11
      (route Method.post "/api/org/users/{id}/mfa/reset" Endpoint.reset_member_mfa) (codes "42")
      refl refl refl
