-- ===== src/Filters.antt =====
-- backend/gateway/internal/httpx/csrf.go and basicauth.go: the filters before the handlers, in the
-- order in which cmd/gateway/main.go puts them.
--
-- A path that is exempt is so for both. The headers that every answer gets stand in Headers.
pub mod Gates
pub mod Headers
use log_monitor_tenex.Prelude.{
  ℕ, String, Text, codes, text_eq, Bool, true, false, not, Option, none, some, List, [], ◌∷◌, leb,
  ◌&&◌, ◌||◌, length, if◌then◌else◌, ◌*◌,
}
use log_monitor_tenex.Parser.{is_empty}
use log_monitor_tenex.Api.{Api}
use log_monitor_tenex.Http.{Response, Handler, Cookie, failure, serve}
use log_monitor_tenex.World.{World, Exec, Result, ok, err, fresh_id, pure, ◌>>=◌}

pub data Method : Type 0 where
  get head options post put delete : Method

-- What the filters read of a request; a header that is missing is empty.
pub record Request : Type 0 where
  pub method : Method
  pub path : Text
  pub csrf_cookie : Option Text
  pub csrf_header : Text
  pub credentials : Option (Text × Text)

-- The configuration of the filters, and the token that random bytes become, if there are any.
pub record Edge : Type 0 where
  pub enabled : Bool
  pub user : Text
  pub pass_hash : Text
  pub random_token : ℕ → Option Text

unfoldable pub is_exempt : Text → Bool
is_exempt path = text_eq path (codes "/api/health")

unfoldable pub is_safe : Method → Bool
is_safe get = true
is_safe head = true
is_safe options = true
is_safe post = false
is_safe put = false
is_safe delete = false

-- A cookie that is long enough to be kept.
abbrev pub kept_token : Option Text → Option Text
kept_token none = none
kept_token (some c) = if leb 32 (length c) then some c else none

abbrev csrf_cookie : Text → Cookie
csrf_cookie token = record { name = "logmonitor_csrf"; value = token; max_age = some (12 * 3600) }

abbrev minted : Option Text → Text × List Cookie
minted none = ([], [])
minted (some token) = (token, csrf_cookie token ∷ [])

abbrev pub random_for : Edge → World → Option Text
random_for edge w = edge.random_token w.fresh

-- `ensureCSRFCookie`: the token, and the cookie that the answer sets.
unfoldable pub ensure_csrf_cookie : Edge → Request → Exec Response (Text × List Cookie)
ensure_csrf_cookie edge req = elim (kept_token req.csrf_cookie) [
  | some token ↦ pure (token, [])
  | none ↦ do n ← fresh_id; pure (minted (edge.random_token n))
]

abbrev with_cookies : List Cookie → Response → Response
with_cookies [] r = r
with_cookies (c ∷ cs) r = record r { cookies = c ∷ r.cookies }

abbrev pub passes : Request → Text → Bool
passes req token =
    is_safe req.method
    || is_exempt req.path
    || (not (is_empty req.csrf_header) && text_eq req.csrf_header token)

-- A handler run to its answer, with the cookies that a filter sets.
abbrev answered : List Cookie → Handler → Handler
answered cookies next w = let (r, v) = serve next w in (ok (with_cookies cookies r), v)

-- `CSRF`
unfoldable pub csrf : Edge → Request → Handler → Handler
unfolding ensure_csrf_cookie is_safe is_exempt serve
csrf edge req next = do
  (token, cookies) ← ensure_csrf_cookie edge req
  if passes req token
      then answered cookies next
      else answered cookies (pure (failure 403 "Missing or invalid CSRF token"))

abbrev pub knows : Api → Edge → Option (Text × Text) → Bool
knows api edge none = false
knows api edge (some (user, password)) =
    api.verify_password password edge.pass_hash && text_eq user edge.user

-- `BasicAuth`
unfoldable pub basic_auth : Api → Edge → Request → Handler → Handler
unfolding is_exempt
basic_auth api edge req next =
    if not edge.enabled
    then next
    else if is_exempt req.path
    then next
    else if knows api edge req.credentials
    then next
    else pure (failure 401 "Not authenticated")

-- The chain before the routes.
unfoldable pub gated : Api → Edge → Request → Handler → Handler
unfolding basic_auth csrf
gated api edge req next = basic_auth api edge req (csrf edge req next)
