-- ===== src/Handlers/Auth/Locked.antt =====
-- ratelimit.go and auth.go: what the lock of an account means for a login.
use log_monitor_tenex.Prelude.{
  suc, ◌+◌, ◌≤◌, ◌<◌, true, some, none, ltb, if◌then◌else◌, [], ◌≡◌, refl, ◌⊎◌, inl, inr, ◌∙◌,
  trim_space, Text,
}
use log_monitor_tenex.Api.{Api}
use log_monitor_tenex.RateLimit.{
  Decision, check, record_failure, acct_limit, lock_duration, account_key, lock_key,
}
use log_monitor_tenex.RateLimit.Limits.{check-locked, record_failure-lock}
use log_monitor_tenex.Http.{Response, serve, failure}
use log_monitor_tenex.World.{World, Cell, ok, err, Error, key_of}
use log_monitor_tenex.Handlers.Request.{Request, client_ip}
use log_monitor_tenex.Handlers.Auth.{
  LoginRequest, login, attempt, check_limits, throttle, invalid_credentials, is_limited,
}
use log_monitor_tenex.Handlers.Auth.Refused.{login_refusals_alike}

-- A throttled address is answered with 429.
login-throttled :
    (api : Api) (request : Request) (req : LoginRequest) (w : World) (d : Decision)
    → is_limited api ≡ true
    → (check api (client_ip api request) (trim_space req.email) {E = Response} w).0 ≡ ok d
    → d.ip_throttled ≡ true
    → (r : Response) × ((login api request (some req) w).0 ≡ err r) × (r.status ≡ 429)
unfolding login attempt check_limits throttle serve
login-throttled api request req w d on decided busy =
    let answer : Response = record (failure 429 "Too many attempts. Try again shortly.") {
      retry_after = if ltb 0 d.retry_after then some (d.retry_after + 1) else none;
    } in
    (answer, rw (on, decided, busy) refl, refl)

-- The tenth failure of an account within its window, or a later one, shuts it for fifteen minutes:
-- where the limiter is on, Redis answers and the lock is not taken back in between, every login to it
-- is refused, whatever the password and the address: with the 401 of wrong credentials, or with 429
-- where the address is throttled.
pub account_locks :
    (api : Api) (ip account : Text) (w : World) (c : Cell)
    → is_limited api ≡ true
    → w.faults ≡ []
    → key_of w (account_key api account) ≡ some c
    → acct_limit ≤ suc c.value
    → (request : Request) (req : LoginRequest) (v : World)
    → lock_key api (trim_space req.email) ≡ lock_key api account
    → v.redis (lock_key api account)
      ≡ (record_failure api ip account {E = Error} w).1.redis (lock_key api account)
    → v.faults ≡ []
    → v.now < w.now + lock_duration
    → (r : Response) × ((login api request (some req) v).0 ≡ err r)
      × ((r ≡ invalid_credentials) ⊎ (r.status ≡ 429))
account_locks api ip account w c on up found many request req v same kept answers before =
    let set : v.redis (lock_key api (trim_space req.email))
        ≡ some (record { value = 1; expires = some (w.now + lock_duration) }) =
      rw same (kept ∙ record_failure-lock api ip account w c up found many) in
    let (d, decided, shut) =
      check-locked api (client_ip api request) (trim_space req.email) {E = Response} v
        (w.now + lock_duration) answers set before in
    elim shut [
      | inl busy ↦
          let (r, refused, status) = login-throttled api request req v d on decided busy in
          (r, refused, inr status)
      | inr (free, locked) ↦ (
        invalid_credentials,
        login_refusals_alike api request req v (inl (on, d, decided, free, locked)),
        inl refl,
      )
    ]
