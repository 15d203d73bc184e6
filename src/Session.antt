-- ===== src/Session.antt =====
-- backend/gateway/internal/auth/session.go: tokens, cookies, and the authenticated caller.
pub mod Tokens
use log_monitor_tenex.Prelude.{
  ℕ, ◌+◌, ◌*◌, String, Text, codes, text_eq, Bool, true, false, not, Option, none, some, List, [],
}
use log_monitor_tenex.Store.Tables.{User, Role}
use log_monitor_tenex.Store.Users.{user_by_id}
use log_monitor_tenex.Authz.{role_text}
use log_monitor_tenex.Api.{Api, Claims}
use log_monitor_tenex.Http.{Response, Cookie, fail_if, or_fail, or_fail_with}
use log_monitor_tenex.World.{World, Exec, gets, pure, ◌>>=◌, ◌>>◌}

abbrev pub session_name : String
session_name = "logmonitor_session"

abbrev pub mfa_name : String
mfa_name = "logmonitor_mfa"

abbrev pub token_ttl : ℕ
token_ttl = 12 * 3600

abbrev pub mfa_token_ttl : ℕ
mfa_token_ttl = 5 * 60

abbrev pub purpose_session : Text
purpose_session = codes "session"

abbrev pub purpose_mfa : Text
purpose_mfa = codes "mfa_pending"

-- The claims of `issue`.
unfoldable pub claims_for : Api → User → Text → ℕ → ℕ → Claims
unfolding role_text
claims_for api u purpose duration now = record {
  org = api.uuid_text u.org_id;
  role = role_text u.role;
  purpose = purpose;
  subject = api.uuid_text u.id;
  issued_at = now;
  expires_at = now + duration;
}

-- `Issue` and `IssueMFAPending`
unfoldable pub issue : Api → User → ℕ → Option Text
unfolding claims_for
issue api u now = api.sign api.jwt_secret (claims_for api u purpose_session token_ttl now)

unfoldable pub issue_mfa_pending : Api → User → ℕ → Option Text
unfolding claims_for
issue_mfa_pending api u now =
    api.sign api.jwt_secret (claims_for api u purpose_mfa mfa_token_ttl now)

-- `SetCookie`, `ClearCookie`, `SetMFACookie` and `ClearMFACookie`
abbrev pub session_cookie : Text → Cookie
session_cookie token = record { name = session_name; value = token; max_age = some token_ttl }

abbrev pub no_session_cookie : Cookie
no_session_cookie = record { name = session_name; value = []; max_age = none }

abbrev pub mfa_cookie : Text → Cookie
mfa_cookie token = record { name = mfa_name; value = token; max_age = some mfa_token_ttl }

abbrev pub no_mfa_cookie : Cookie
no_mfa_cookie = record { name = mfa_name; value = []; max_age = none }

abbrev unauthorized : String
unauthorized = "Not authenticated"

-- The user whom a token of one purpose names; any failure is a 401.
unfoldable pub user_of_token : Api → Text → Option Text → Exec Response User
user_of_token api purpose cookie = do
  token ← or_fail cookie 401 unauthorized
  now ← gets (λ w. w.now)
  claims ← or_fail (api.parse_token api.jwt_secret now token) 401 unauthorized
  fail_if (not (text_eq claims.purpose purpose)) 401 unauthorized
  id ← or_fail (api.parse_uuid claims.subject) 401 unauthorized
  or_fail_with (user_by_id id) 401 unauthorized

-- `Require`: the handler runs for the user behind the session cookie.
unfoldable pub require :
    {A : Type 0} → Api → Option Text → (User → Exec Response A) → Exec Response A
require api cookie next = do caller ← user_of_token api purpose_session cookie; next caller

-- `PendingUser`, with the answer that its one caller gives.
unfoldable pub pending_user : Api → Option Text → Exec Response User
pending_user api cookie = user_of_token api purpose_mfa cookie
