-- ===== src/Handlers/Auth/Refused.antt =====
-- auth.go, `login`: the reasons for which credentials are refused, and the one answer to all of them.
use log_monitor_tenex.Prelude.{Text, true, false, some, ◌≡◌, refl, ◌⊎◌, inl, inr, trim_space}
use log_monitor_tenex.Store.Tables.{User}
use log_monitor_tenex.Store.Users.{user_by_email}
use log_monitor_tenex.Api.{Api}
use log_monitor_tenex.RateLimit.{Decision, check}
use log_monitor_tenex.Http.{Response, serve}
use log_monitor_tenex.World.{World, ok, err, Error, ◌>>=◌}
use log_monitor_tenex.World.Rules.{Result-cases}
use log_monitor_tenex.Handlers.Request.{Request, client_ip}
use log_monitor_tenex.Handlers.Auth.{
  LoginRequest, login, check_limits, throttle, reject, record_login_failure, invalid_credentials,
  attempt, verified, is_limited,
}
use log_monitor_tenex.Handlers.Auth.Alike.{Total-record_login_failure}

module _ (api : Api) (ip email : Text) (w : World) where
  -- The limiter is on, and decides that the account is locked and the address not throttled.
  abbrev pub IsLocked : Type 0
  IsLocked =
      (is_limited api ≡ true)
      × (d : Decision) × ((check api ip email {E = Response} w).0 ≡ ok d)
      × (d.ip_throttled ≡ false)
      × (d.account_locked ≡ true)

  check_limits-locked : IsLocked → (check_limits api ip email w).0 ≡ err invalid_credentials
  unfolding check_limits throttle ◌>>=◌
  check_limits-locked (on, d, decided, free, locked) = rw (on, decided, free, locked) refl

  -- The limiter lets the request through, and the database gives no user for the address.
  abbrev pub IsUnknown : Type 0
  IsUnknown =
      ((check_limits api ip email w).0 ≡ ok tt)
      × (e : Error) × ((user_by_email email (check_limits api ip email w).1).0 ≡ err e)

  -- It lets it through, and the user's hash does not fit the password.
  abbrev pub IsWrong : Text → Type 0
  IsWrong password =
      ((check_limits api ip email w).0 ≡ ok tt)
      × (u : User) × ((user_by_email email (check_limits api ip email w).1).0 ≡ ok u)
      × (api.verify_password password u.password_hash ≡ false)

  abbrev pub IsReason : Text → Type 0
  IsReason password = IsLocked ⊎ (IsUnknown ⊎ IsWrong password)

module _ (api : Api) (ip email : Text) (w : World) where
  reject-invalid : {A : Type 0} → (reject api ip email {A = A} w).0 ≡ err invalid_credentials
  unfolding reject ◌>>=◌
  reject-invalid {A} = elim (Result-cases (record_login_failure api ip email w).0) [
    | inl (a, q) ↦ rw q refl
    | inr (x, q) ↦ absurd ((Total-record_login_failure api ip email).at w x q)
  ]

module _ (api : Api) (ip email password : Text) (w : World) where
  attempt-refused :
      IsReason api ip email w password
      → (attempt api ip email password w).0 ≡ err invalid_credentials
  unfolding attempt verified ◌>>=◌
  attempt-refused (inl locked) = rw (check_limits-locked api ip email w locked) refl
  attempt-refused (inr (inl (through, e, unknown))) =
      let v = (user_by_email email (check_limits api ip email w).1).1 in
      rw (through, unknown, reject-invalid api ip email v {A = User}) refl
  attempt-refused (inr (inr (through, u, known, wrong))) =
      let v = (user_by_email email (check_limits api ip email w).1).1 in
      rw (through, known, wrong) (reject-invalid api ip u.email v)

-- A locked account whose address is not throttled and, where the limiter lets the request through, an
-- e-mail for which the database gives no user and a password that does not fit the user's hash are
-- all answered alike, with the same 401.
pub login_refusals_alike :
    (api : Api) (request : Request) (req : LoginRequest) (w : World)
    → IsReason api (client_ip api request) (trim_space req.email) w req.password
    → (login api request (some req) w).0 ≡ err invalid_credentials
unfolding login serve
login_refusals_alike api request req w reason =
    attempt-refused api (client_ip api request) (trim_space req.email) req.password w reason
