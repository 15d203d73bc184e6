-- ===== src/Handlers/Auth.antt =====
-- backend/gateway/internal/handlers/auth.go: registration, login and logout.
pub mod Login
pub mod Alike
pub mod Register
pub mod Refused
pub mod Locked
pub mod Newcomer
use log_monitor_tenex.Prelude.{
  ℕ, suc, ◌+◌, String, Text, codes, Bool, true, false, not, Option, none, some, List, [], ◌∷◌, ◌&&◌,
  ◌||◌, ltb, if◌then◌else◌, trim_space, contains, text_eq,
}
use log_monitor_tenex.Store.Tables.{User, Role}
use log_monitor_tenex.Store.Users.{user_by_email, create_org_with_owner, org_by_id}
use log_monitor_tenex.Store.Mfa.{MfaState, mfa_state}
use log_monitor_tenex.Api.{Api}
use log_monitor_tenex.Session.{
  issue, issue_mfa_pending, session_cookie, no_session_cookie, mfa_cookie, no_mfa_cookie,
}
use log_monitor_tenex.RateLimit.{Decision, check, record_failure, reset, allow}
use log_monitor_tenex.Http.{
  Response, Handler, Body, no_content, user_body, login_body, mfa_required, profile_body, json,
  failure, fail_if, or_fail, or_fail_with,
}
use log_monitor_tenex.Handlers.Request.{Request, client_ip, slugify, byte_length}
use log_monitor_tenex.World.{
  World, Exec, Result, ok, err, Error, pure, raise, gets, try, or_else, fresh_id, ◌>>=◌, ◌>>◌,
}

pub record RegisterRequest : Type 0 where
  pub org_name : Text
  pub email : Text
  pub password : Text

pub record LoginRequest : Type 0 where
  pub email : Text
  pub password : Text

abbrev pub min_password_len : ℕ
min_password_len = 10

-- The one answer to every wrong credential.
abbrev pub invalid_credentials : Response
invalid_credentials = failure 401 "Invalid email or password"

unfoldable pub is_no_email : Text → Bool
unfolding contains
is_no_email email = not (contains b'@' email)

abbrev pub register_failure : Error → Response
register_failure Error.email_taken = failure 409 "That email is already registered"
register_failure Error.slug_taken = failure 409 "An organization with that name already exists"
register_failure _ = failure 500 "Could not create account"

-- The session of a new user.
unfoldable pub first_session : Api → User → Handler
first_session api user = do
  now ← gets (λ w. w.now)
  token ← or_fail (issue api user now) 500 "Could not create session"
  pure (record (json 201 (user_body user)) { cookies = session_cookie token ∷ [] })

-- `register`
unfoldable pub register : Api → Option RegisterRequest → Handler
unfolding is_no_email
register api body = do
  req ← or_fail body 400 "invalid request body"
  let email = trim_space req.email
  let name = trim_space req.org_name
  fail_if (text_eq name [] || is_no_email email) 400
      "Organization name and a valid email are required"
  fail_if (ltb (byte_length req.password) min_password_len) 400
      "Password must be at least 10 characters"
  fail_if (text_eq (slugify name) []) 400 "Organization name must contain letters or digits"
  salt ← fresh_id
  hash ← or_fail (api.hash_password salt req.password) 500 "Could not create account"
  (_, user) ← or_else register_failure (create_org_with_owner name (slugify name) email hash)
  first_session api user

-- The `switch` on the limiter's decision.
unfoldable pub throttle : Decision → Exec Response (Unit {0})
throttle d =
    if d.ip_throttled
    then raise (record (failure 429 "Too many attempts. Try again shortly.") {
      retry_after = if ltb 0 d.retry_after then some (d.retry_after + 1) else none;
    })
    else if d.account_locked
    then raise invalid_credentials
    else pure tt

unfoldable pub is_limited : Api → Bool
is_limited api = api.has_limiter && api.login_rate_enabled

unfoldable pub check_limits : Api → Text → Text → Exec Response (Unit {0})
unfolding is_limited throttle
check_limits api ip email =
    if is_limited api then (do d ← check api ip email; throttle d) else pure tt

-- `recordLoginFailure`
unfoldable pub record_login_failure : Api → Text → Text → Exec Response (Unit {0})
unfolding is_limited
record_login_failure api ip account =
    if is_limited api then record_failure api ip account else pure tt

abbrev state_or_none : Result Error MfaState → MfaState
state_or_none (ok s) = s
state_or_none (err e) = record { enabled = false; secret = none; org_require = false }

-- `completeLogin`
unfoldable pub complete_login : Api → User → Handler
complete_login api user = do
  now ← gets (λ w. w.now)
  token ← or_fail (issue api user now) 500 "Could not create session"
  if api.has_limiter then reset api user.email else pure tt
  state ← try (mfa_state user.id)
  pure
      (record (json 200 (
        login_body user (state_or_none state).enabled
          ((state_or_none state).org_require && not (state_or_none state).enabled))) {
            cookies = no_mfa_cookie ∷ session_cookie token ∷ [];
          })

-- A refusal that is counted.
unfoldable pub reject : Api → Text → Text → {A : Type 0} → Exec Response A
unfolding record_login_failure
reject api ip account = do record_login_failure api ip account; raise invalid_credentials

abbrev pub found_user : Api → Text → Text → Result Error User → Exec Response User
found_user api ip email (ok u) = pure u
found_user api ip email (err e) = reject api ip email

-- After the password: the second factor, or the session.
unfoldable pub after_password : Api → User → Handler
after_password api user = do
  state ← or_fail_with (mfa_state user.id) 500 "Could not complete sign in"
  if not state.enabled then complete_login api user else do
    now ← gets (λ w. w.now)
    pending ← or_fail (issue_mfa_pending api user now) 500 "Could not create session"
    pure (record (json 200 mfa_required) { cookies = no_session_cookie ∷ mfa_cookie pending ∷ [] })

-- The password of the user who was found.
unfoldable pub verified : Api → Text → Text → User → Handler
unfolding reject after_password
verified api password ip user =
    if api.verify_password password user.password_hash
    then after_password api user
    else reject api ip user.email

-- An attempt to log in.
unfoldable pub attempt : Api → Text → Text → Text → Handler
unfolding check_limits verified
attempt api ip email password = do
  check_limits api ip email
  row ← try (user_by_email email)
  user ← found_user api ip email row
  verified api password ip user

-- `login`
unfoldable pub login : Api → Request → Option LoginRequest → Handler
unfolding attempt client_ip
login api request body = do
  req ← or_fail body 400 "invalid request body"
  attempt api (client_ip api request) (trim_space req.email) req.password

-- `logout`
unfoldable pub logout : Handler
logout = pure (record (json 204 no_content) { cookies = no_session_cookie ∷ [] })

abbrev to_option : {A : Type 0} → Result Error A → Option A
to_option (ok a) = some a
to_option (err e) = none

-- `me`
unfoldable pub me : User → Handler
me caller = do
  org ← try (org_by_id caller.org_id)
  state ← try (mfa_state caller.id)
  pure (json 200 (profile_body caller (to_option org) (to_option state)))
