-- ===== src/Handlers/Auth/Alike.antt =====
-- auth.go, `login`: a failure says nothing about its reason.
use log_monitor_tenex.Prelude.{
  Text, Bool, true, false, Option, none, some, ◌≡◌, refl, inl, inr, arith, if◌then◌else◌,
}
use log_monitor_tenex.Store.Tables.{User}
use log_monitor_tenex.Api.{Api}
use log_monitor_tenex.RateLimit.{Decision}
use log_monitor_tenex.RateLimit.Rules.{limiter_rules}
use log_monitor_tenex.Http.{Response, serve, or_fail, or_fail_with}
use log_monitor_tenex.World.{World, Exec, Result, ok, err, Error, raise, gets, ◌>>=◌}
use log_monitor_tenex.World.Rules.{Total, Result-cases, action_rules}
use log_monitor_tenex.Handlers.Request.{Request}
use log_monitor_tenex.Handlers.Auth.{
  LoginRequest, login, check_limits, throttle, after_password, complete_login, reject,
  record_login_failure, found_user, invalid_credentials, attempt, verified,
}

-- Its only refusal with status 401 is that of wrong credentials.
record IsAlike {A : Type 0} (m : Exec Response A) : Type 0 where
  at : (w : World) (r : Response) → (m w).0 ≡ err r → r.status ≡ 401 → r ≡ invalid_credentials

module _ {A : Type 0} where
  IsAlike-Total : (m : Exec Response A) → Total m → IsAlike m
  IsAlike-Total m h = record { at = λ w r e _. absurd (h.at w r e) }

  IsAlike-raise :
      (r : Response) → (r.status ≡ 401 → r ≡ invalid_credentials) → IsAlike {A = A} (raise r)
  unfolding ◌>>=◌
  IsAlike-raise r h = record { at = λ w r' e s. ground (arith, h) }

  IsAlike-invalid : IsAlike {A = A} (raise invalid_credentials)
  IsAlike-invalid = IsAlike-raise _ (λ _. refl)

  IsAlike-if :
      (b : Bool) (m n : Exec Response A) → IsAlike m → IsAlike n → IsAlike (if b then m else n)
  IsAlike-if true m n hm hn = hm
  IsAlike-if false m n hm hn = hn

  IsAlike-or_fail : (o : Option A) → IsAlike (or_fail o 500 "Could not create session")
  unfolding serve
  IsAlike-or_fail none = record { at = λ w r e s. ground arith }
  IsAlike-or_fail (some a) = record { at = λ w r e s. ground arith }

  IsAlike-body : (o : Option A) → IsAlike (or_fail o 400 "invalid request body")
  unfolding serve
  IsAlike-body none = record { at = λ w r e s. ground arith }
  IsAlike-body (some a) = record { at = λ w r e s. ground arith }

  IsAlike-or_fail_with :
      (m : Exec Error A) → IsAlike (or_fail_with m 500 "Could not complete sign in")
  unfolding serve
  IsAlike-or_fail_with m = record {
    at = λ w r e s. elim (Result-cases (m w).0) [
      | inl (a, p) ↦ ground arith
      | inr (x, p) ↦ ground arith
    ];
  }

IsAlike-bind :
    {A B : Type 0} (m : Exec Response A) (f : A → Exec Response B)
    → IsAlike m
    → ((a : A) → IsAlike (f a))
    → IsAlike (m >>= f)
unfolding ◌>>=◌
IsAlike-bind m f hm hf = record {
  at = λ w r e s. elim (Result-cases (m w).0) [
    | inl (a, q) ↦ (hf a).at (m w).1 r (rw q at e) s
    | inr (x, q) ↦ hm.at w r (ground arith) s
  ];
}

Total-gets : {A : Type 0} (f : World → A) → Total {E = Response} (gets f)
unfolding ◌>>=◌
Total-gets f = record { at = λ w e h. ground arith }

ruleset rules = (
  action_rules, limiter_rules, IsAlike-if, IsAlike-or_fail, IsAlike-or_fail_with, IsAlike-bind,
  Total-gets,
)

IsAlike-throttle : (d : Decision) → IsAlike (throttle d)
unfolding throttle
IsAlike-throttle d =
    IsAlike-if d.ip_throttled _ _ (IsAlike-raise _ (λ busy. absurd (ground arith)))
      (search (IsAlike-invalid, IsAlike-Total, rules))

ruleset parts = (IsAlike-Total, IsAlike-invalid, IsAlike-throttle, rules)

module _ (api : Api) where
  IsAlike-check_limits : (ip email : Text) → IsAlike (check_limits api ip email)
  unfolding check_limits
  IsAlike-check_limits ip email = search parts depth 20

  pub Total-record_login_failure : (ip email : Text) → Total (record_login_failure api ip email)
  unfolding record_login_failure
  Total-record_login_failure ip email = search rules depth 20

  IsAlike-reject : {A : Type 0} (ip email : Text) → IsAlike (reject api ip email {A = A})
  unfolding reject
  IsAlike-reject ip email = search (Total-record_login_failure, parts) depth 20

  IsAlike-found_user :
      (ip email : Text) (row : Result Error User) → IsAlike (found_user api ip email row)
  IsAlike-found_user ip email (ok u) = search parts depth 20
  IsAlike-found_user ip email (err e) = IsAlike-reject ip email

  IsAlike-complete_login : (u : User) → IsAlike (complete_login api u)
  unfolding complete_login
  IsAlike-complete_login u = search parts depth 30

  IsAlike-after_password : (u : User) → IsAlike (after_password api u)
  unfolding after_password
  IsAlike-after_password u = search (IsAlike-complete_login, parts) depth 30

  IsAlike-verified : (ip password : Text) (u : User) → IsAlike (verified api password ip u)
  unfolding verified
  IsAlike-verified ip password u = search (IsAlike-after_password, IsAlike-reject, parts) depth 30

  IsAlike-attempt : (ip email password : Text) → IsAlike (attempt api ip email password)
  unfolding attempt
  IsAlike-attempt ip email password =
      search (IsAlike-check_limits, IsAlike-found_user, IsAlike-verified, parts) depth 30

module _ (api : Api) (request : Request) where
  IsAlike-login : (body : Option LoginRequest) → IsAlike (login api request body)
  unfolding login
  IsAlike-login body = search (IsAlike-attempt, IsAlike-body, parts) depth 30

-- Whatever refuses a login with 401 answers that credentials are wrong.
login_unauthorized :
    (api : Api) (request : Request) (body : Option LoginRequest) (w : World) {r : Response}
    → (login api request body w).0 ≡ err r
    → r.status ≡ 401
    → r ≡ invalid_credentials
login_unauthorized api request body w {r} h unauthorized =
    (IsAlike-login api request body).at w r h unauthorized
