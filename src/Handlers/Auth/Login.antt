-- ===== src/Handlers/Auth/Login.antt =====
-- auth.go, `login`: what it takes to get in.
use log_monitor_tenex.Prelude.{
  ℕ, Text, true, false, some, [], ◌∷◌, ◌≡◌, refl, sym, ap, ◌∙◌, ◌⊎◌, inl, inr, arith, find?,
  Bool-cases, Option-cases, trim_space,
}
use log_monitor_tenex.Store.Tables.{User, Db}
use log_monitor_tenex.Store.Users.{user_by_email, user_of, has_email}
use log_monitor_tenex.Store.Mfa.{MfaState, mfa_state, joined}
use log_monitor_tenex.Store.Users.{has_id}
use log_monitor_tenex.Store.Rules.{store_rules}
use log_monitor_tenex.Api.{Api}
use log_monitor_tenex.RateLimit.Rules.{limiter_rules}
use log_monitor_tenex.Session.{
  issue, issue_mfa_pending, session_cookie, no_session_cookie, mfa_cookie, no_mfa_cookie,
}
use log_monitor_tenex.Http.{Response, serve, mfa_required}
use log_monitor_tenex.Http.Rules.{handler_rules}
use log_monitor_tenex.World.{World, Result, ok, err, Error, try, called, ◌>>=◌}
use log_monitor_tenex.World.Rules.{Reads, Result-cases, bind-ok}
use log_monitor_tenex.Handlers.Request.{Request, client_ip}
use log_monitor_tenex.Handlers.Auth.{
  LoginRequest, login, check_limits, throttle, after_password, complete_login, reject,
  record_login_failure, found_user, attempt, verified,
}

ruleset rules = (handler_rules, store_rules, limiter_rules)

module _ (api : Api) where
  pub Reads-check_limits : (ip email : Text) → Reads (check_limits api ip email)
  unfolding check_limits throttle
  Reads-check_limits ip email = search rules depth 20

  Reads-record_login_failure : (ip email : Text) → Reads (record_login_failure api ip email)
  unfolding record_login_failure
  Reads-record_login_failure ip email = search rules depth 20

  Reads-reject : {A : Type 0} (ip email : Text) → Reads (reject api ip email {A = A})
  unfolding reject
  Reads-reject ip email = search (Reads-record_login_failure, rules) depth 20

  pub Reads-complete_login : (u : User) → Reads (complete_login api u)
  unfolding complete_login
  Reads-complete_login u = search rules depth 30

  Reads-after_password : (u : User) → Reads (after_password api u)
  unfolding after_password
  Reads-after_password u = search (Reads-complete_login, rules) depth 30

-- The answer to a right password: the session for a user without a second factor; for a user with
-- one, only the token that admits to it, and no session.
abbrev pub IsAdmission : Api → User → ℕ → MfaState → Response → Type 0
IsAdmission api u now s r =
    ((s.enabled ≡ false)
      × (t : Text) × (issue api u now ≡ some t)
      × (r.cookies ≡ no_mfa_cookie ∷ session_cookie t ∷ []))
    ⊎ ((s.enabled ≡ true)
        × (t : Text) × (issue_mfa_pending api u now ≡ some t)
        × (r.body ≡ mfa_required)
        × (r.cookies ≡ no_session_cookie ∷ mfa_cookie t ∷ []))

module _ (api : Api) (u : User) (w : World) {r : Response} where
  pub complete_login-ok :
      (complete_login api u w).0 ≡ ok r
      → (t : Text) × (issue api u w.now ≡ some t)
        × (r.cookies ≡ no_mfa_cookie ∷ session_cookie t ∷ [])
  unfolding complete_login serve
  complete_login-ok h = elim (Option-cases (issue api u w.now)) [
    | inl failed ↦ absurd (ground arith)
    | inr (t, e) ↦ (t, e, ground arith)
  ]

module _ (api : Api) (u : User) (w : World) {r : Response} where
  pub after_password-ok :
      (after_password api u w).0 ≡ ok r
      → (s : MfaState) × (joined (find? (has_id u.id) w.db.users) w.db.organizations ≡ ok s)
        × IsAdmission api u w.now s r
  unfolding after_password serve mfa_state
  after_password-ok h =
      elim (Result-cases (joined (find? (has_id u.id) w.db.users) w.db.organizations)) [
        | inr (bad, e) ↦ absurd (ground arith)
        | inl (s, e) ↦ (s, e, admission s e h)
      ]
    where
      pending :
          (s : MfaState)
          → joined (find? (has_id u.id) w.db.users) w.db.organizations ≡ ok s
          → s.enabled ≡ true
          → (after_password api u w).0 ≡ ok r
          → IsAdmission api u w.now s r
      pending s e on h = elim (Option-cases (issue_mfa_pending api u w.now)) [
        | inl failed ↦ absurd (ground arith)
        | inr (t, et) ↦ inr (on, t, et, ground arith, ground arith)
      ]

      admission :
          (s : MfaState)
          → joined (find? (has_id u.id) w.db.users) w.db.organizations ≡ ok s
          → (after_password api u w).0 ≡ ok r
          → IsAdmission api u w.now s r
      admission s e h = elim (Bool-cases s.enabled) [
        | inl on ↦ pending s e on h
        | inr off ↦
            let (t, et, cookies) = complete_login-ok api u (called w) {r = r} (ground arith) in
            inl (off, t, et, cookies)
      ]

module _ (api : Api) (ip password : Text) (u : User) (w : World) {r : Response} where
  verified-ok :
      (verified api password ip u w).0 ≡ ok r
      → (api.verify_password password u.password_hash ≡ true)
        × ((after_password api u w).0 ≡ ok r)
        × ((verified api password ip u w).1.db ≡ w.db)
  unfolding verified reject ◌>>=◌
  verified-ok h = elim (Bool-cases (api.verify_password password u.password_hash)) [
    | inl right ↦
        let reads = (Reads-after_password api u).at w in (right, ground arith, ground arith)
    | inr wrong ↦ elim (Result-cases (record_login_failure api ip u.email w).0) [
      | inl (a, e) ↦ absurd (ground arith)
      | inr (x, e) ↦ absurd (ground arith)
    ]
  ]

module _ (api : Api) (ip email : Text) (w : World) {u : User} where
  found_user-ok :
      (row : Result Error User)
      → (found_user api ip email row w).0 ≡ ok u
      → (row ≡ ok u) × ((found_user api ip email row w).1 ≡ w)
  unfolding reject ◌>>=◌
  found_user-ok (ok v) h = (ground arith, refl)
  found_user-ok (err e) h = elim (Result-cases (record_login_failure api ip email w).0) [
    | inl (a, q) ↦ absurd (ground arith)
    | inr (x, q) ↦ absurd (ground arith)
  ]

module _ (email : Text) (w : World) {u : User} where
  user_by_email-ok :
      (user_by_email email w).0 ≡ ok u → user_of (find? (has_email email) w.db.users) ≡ some u
  unfolding user_by_email ◌>>=◌
  user_by_email-ok h = ground arith

-- Who may log in with an e-mail and a password, and what the answer is.
abbrev pub Admits : Api → Text → Text → Response → Db → ℕ → Type 0
Admits api email password r db now =
    (u : User) × (s : MfaState) × (user_of (find? (has_email email) db.users) ≡ some u)
    × (api.verify_password password u.password_hash ≡ true)
    × (joined (find? (has_id u.id) db.users) db.organizations ≡ ok s)
    × IsAdmission api u now s r

module _ (api : Api) (ip email password : Text) (u : User) (w w0 : World) {r : Response} where
  verified-Admits :
      w.db ≡ w0.db
      → w.now ≡ w0.now
      → user_of (find? (has_email email) w0.db.users) ≡ some u
      → (verified api password ip u w).0 ≡ ok r
      → Admits api email password r w0.db w0.now × ((verified api password ip u w).1.db ≡ w0.db)
  verified-Admits same time named h =
      let (right, admitted, kept) = verified-ok api ip password u w h in
      let (s, e, is) = after_password-ok api u w admitted in
      ((u, s, named, right, rw (sym same) e, rw (sym time) is), kept ∙ same)

module _ (email : Text) (w : World) {row : Result Error User} where
  try_user-ok :
      (try {F = Response} (user_by_email email) w).0 ≡ ok row → (user_by_email email w).0 ≡ row
  unfolding ◌>>=◌
  try_user-ok h = cc

module _ (api : Api) (ip email password : Text) (w : World) {r : Response} where
  attempt-ok :
      (attempt api ip email password w).0 ≡ ok r
      → Admits api email password r w.db w.now × ((attempt api ip email password w).1.db ≡ w.db)
  unfolding attempt
  attempt-ok h =
      let checks = Reads-check_limits api ip email in
      let (_, _, p) = bind-ok (check_limits api ip email) _ w h in
      let w' = (check_limits api ip email w).1 in
      let (row, e, q) = bind-ok (try (user_by_email email)) _ w' (rw p at h) in
      let w'' = (try {F = Response} (user_by_email email) w').1 in
      let reads : Reads (try {F = Response} (user_by_email email)) = search rules in
      let (u, f, t) = bind-ok (found_user api ip email row) _ w'' (rw (p, q) at h) in
      let (g, same) = found_user-ok api ip email w'' row f in
      let named = user_by_email-ok email w' (try_user-ok email w' e ∙ g) in
      let path = p ∙ q ∙ t ∙ ap (verified api password ip u) same in
      let (admits, kept) =
        verified-Admits api ip email password u w'' w (reads.at w' ∙ checks.at w)
          (reads.time w' ∙ checks.time w)
          (sym (ap (λ (d : Db). user_of (find? (has_email email) d.users)) (checks.at w)) ∙ named)
          (sym (ap (λ x. x.0) path) ∙ h) in
      (admits, ap (λ x. x.1.db) path ∙ kept)

module _ (api : Api) (request : Request) (req : LoginRequest) (w : World) where
  login-attempt :
      login api request (some req) w
      ≡ attempt api (client_ip api request) (trim_space req.email) req.password w
  unfolding login serve
  login-attempt = refl

module _ (api : Api) (request : Request) (req : LoginRequest) (w : World) where
  -- A login that succeeds is that of a user whom the e-mail names, with a password that fits the
  -- stored hash; a user with a second factor gets the token for it and no session. The database is
  -- as it was.
  pub login-Admits :
      {r : Response}
      → (login api request (some req) w).0 ≡ ok r
      → Admits api (trim_space req.email) req.password r w.db w.now
        × ((login api request (some req) w).1.db ≡ w.db)
  login-Admits {r} h =
      let path = login-attempt api request req w in
      let (admits, kept) =
        attempt-ok api (client_ip api request) (trim_space req.email) req.password w
          (sym (ap (λ x. x.0) path) ∙ h) in
      (admits, ap (λ x. x.1.db) path ∙ kept)
