-- ===== src/Server/Routes.antt =====
-- backend/gateway/internal/handlers/handlers.go, `Routes`: the patterns of the mux, and how
-- net/http's `ServeMux` finds the one that a request meets.
--
-- A path is in canonical form, as the mux redirects any other to, and its escapes are decoded.
use log_monitor_tenex.Prelude.{
  String, Text, codes, text_eq, Bool, true, false, Option, none, some, List, [], ◌∷◌, ◌||◌, split,
  if◌then◌else◌,
}
use log_monitor_tenex.Parser.{is_empty}
use log_monitor_tenex.Filters.{Method, get, head, options, post, put, delete}

-- The handlers that the routes name.
pub data Endpoint : Type 0 where
  health register login logout me verify_mfa enroll_mfa activate_mfa disable_mfa list_org_users
        invite_member reset_member_mfa set_org_mfa_policy list_grants create_grant delete_grant
        list_uploads create_upload start_analysis delete_upload get_analysis dashboard_summary
        dashboard_series dashboard_top status_codes action_plan list_audit search metrics :
      Endpoint

-- A segment of a pattern: a text that stands for itself, or one in braces for any segment.
pub data Segment : Type 0 where
  lit : Text → Segment
  wildcard : Segment

pub record Route : Type 0 where
  pub method : Method
  pub pattern : List Segment
  pub endpoint : Endpoint

unfoldable pub segment_of : Text → Segment
segment_of [] = lit []
segment_of (c ∷ s) = if text_eq (c ∷ s) (codes "{id}") then wildcard else lit (c ∷ s)

abbrev segments_of : List Text → List Segment
segments_of [] = []
segments_of (p ∷ ps) = segment_of p ∷ segments_of ps

-- `HandleFunc`
unfoldable pub route : Method → String → Endpoint → Route
unfolding segment_of split
route m path e = record {
  method = m;
  pattern = segments_of (split b'/' (codes path));
  endpoint = e;
}

-- `Routes`
unfoldable pub routes : List Route
unfolding route
routes =
    route get "/api/health" Endpoint.health
    ∷ route post "/api/auth/register" Endpoint.register
    ∷ route post "/api/auth/login" Endpoint.login
    ∷ route post "/api/auth/logout" Endpoint.logout
    ∷ route get "/api/auth/me" Endpoint.me
    ∷ route post "/api/auth/mfa/verify" Endpoint.verify_mfa
    ∷ route post "/api/auth/mfa/enroll" Endpoint.enroll_mfa
    ∷ route post "/api/auth/mfa/activate" Endpoint.activate_mfa
    ∷ route post "/api/auth/mfa/disable" Endpoint.disable_mfa
    ∷ route get "/api/org/users" Endpoint.list_org_users
    ∷ route post "/api/org/invite" Endpoint.invite_member
    ∷ route post "/api/org/users/{id}/mfa/reset" Endpoint.reset_member_mfa
    ∷ route post "/api/org/mfa-policy" Endpoint.set_org_mfa_policy
    ∷ route get "/api/grants" Endpoint.list_grants
    ∷ route post "/api/grants" Endpoint.create_grant
    ∷ route delete "/api/grants/{id}" Endpoint.delete_grant
    ∷ route get "/api/uploads" Endpoint.list_uploads
    ∷ route post "/api/uploads" Endpoint.create_upload
    ∷ route post "/api/uploads/{id}/analyze" Endpoint.start_analysis
    ∷ route delete "/api/uploads/{id}" Endpoint.delete_upload
    ∷ route get "/api/analyses/{id}" Endpoint.get_analysis
    ∷ route get "/api/dashboard/summary" Endpoint.dashboard_summary
    ∷ route get "/api/dashboard/series" Endpoint.dashboard_series
    ∷ route get "/api/dashboard/top" Endpoint.dashboard_top
    ∷ route get "/api/dashboard/status" Endpoint.status_codes
    ∷ route get "/api/dashboard/actions" Endpoint.action_plan
    ∷ route get "/api/audit" Endpoint.list_audit
    ∷ route get "/api/search" Endpoint.search
    ∷ route get "/api/metrics" Endpoint.metrics
    ∷ []

abbrev pub same_method : Method → Method → Bool
same_method get get = true
same_method head head = true
same_method options options = true
same_method post post = true
same_method put put = true
same_method delete delete = true
same_method _ _ = false

abbrev pub is_head : Method → Bool
is_head head = true
is_head _ = false

-- A pattern for GET is met by HEAD too.
unfoldable pub serves : Method → Method → Bool
serves get m = same_method get m || is_head m
serves other m = same_method other m

-- The text that the wildcard stands for in a path that meets the pattern, empty where there is no
-- wildcard. A wildcard stands for no empty segment.
unfoldable pub match_path : List Segment → List Text → Option Text
match_path [] [] = some []
match_path [] (t ∷ ts) = none
match_path (s ∷ ss) [] = none
match_path (lit p ∷ ss) (t ∷ ts) = let rest = match_path ss ts in if text_eq p t then rest else none
match_path (wildcard ∷ ss) (t ∷ ts) = elim (match_path ss ts) [
  | none ↦ none
  | some _ ↦ if is_empty t then none else some t
]

-- What the mux makes of a request.
pub data Found : Type 0 where
  no_path wrong_method : Found
  found : Endpoint → Text → Found

-- A later route, or the answer that the path is there under another method.
abbrev pub also_known : Found → Found
also_known no_path = wrong_method
also_known other = other

unfoldable pub find_route : Method → List Text → List Route → Found
unfolding match_path serves
find_route m path [] = no_path
find_route m path (r ∷ rs) =
    let later = find_route m path rs in
    elim (match_path r.pattern path) [
      | none ↦ later
      | some id ↦ if serves r.method m then found r.endpoint id else also_known later
    ]

-- The route of a method and a path.
unfoldable pub route_of : Method → Text → Found
unfolding find_route routes split
route_of m path = find_route m (split b'/' path) routes
