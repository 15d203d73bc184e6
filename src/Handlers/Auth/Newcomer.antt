-- ===== src/Handlers/Auth/Newcomer.antt =====
-- auth.go, `register` and `login` one after the other: who has registered can sign in.
use log_monitor_tenex.Prelude.{
  ℕ, suc, Text, true, false, none, some, [], ◌∷◌, ◌≡◌, refl, sym, ap, ◌∙◌, arith, find?, ◌==◌,
  trim_space, to_lower, text_eq, text_eq_refl, map, Bool-cases, inl, inr,
}
use log_monitor_tenex.Store.Tables.{Organization, User, Db}
use log_monitor_tenex.Store.Users.{has_id, has_email, citext_eq, new_row, user_of, user_by_email}
use log_monitor_tenex.Store.Mfa.{MfaState, joined, mfa_state}
use log_monitor_tenex.Api.{Api}
use log_monitor_tenex.Bytes.{IsBytes}
use log_monitor_tenex.Passwords.{Argon, hash_password, verify_password}
use log_monitor_tenex.Passwords.RoundTrip.{verify_password-hash_password}
use log_monitor_tenex.Session.{issue, session_cookie, no_mfa_cookie}
use log_monitor_tenex.Http.{Response, json, login_body, serve}
use log_monitor_tenex.World.{World, ok, ◌>>=◌, command}
use log_monitor_tenex.RateLimit.{reset}
use log_monitor_tenex.Handlers.Request.{Request, client_ip}
use log_monitor_tenex.Handlers.Auth.{
  RegisterRequest, register, login, check_limits, attempt, verified, after_password, complete_login,
}
use log_monitor_tenex.Handlers.Auth.Login.{Reads-check_limits}
use log_monitor_tenex.Handlers.Auth.Register.{
  IdsBelow, owner_of, organization_of, Registers, registered, find?-last, no_user_above,
  no_org_above,
}

-- The second factor of a user who has not enrolled one, in an organization that does not ask for it.
abbrev no_factor : MfaState
no_factor = record { enabled = false; secret = none; org_require = false }

abbrev pub signed_in : User → Text → Response
signed_in u t = record (json 200 (login_body u false false)) {
  cookies = no_mfa_cookie ∷ session_cookie t ∷ [];
}

module _ (api : Api) (u : User) (w : World) {t : Text} where
  complete_login-SignsIn :
      joined (find? (has_id u.id) w.db.users) w.db.organizations ≡ ok no_factor
      → issue api u w.now ≡ some t
      → (complete_login api u w).0 ≡ ok (signed_in u t)
  unfolding complete_login serve mfa_state reset command
  complete_login-SignsIn known signed = elim (Bool-cases api.has_limiter) [
    | inl on ↦ ground arith
    | inr off ↦ ground arith
  ]

module _ (api : Api) (u : User) (w : World) {t : Text} where
  verified-SignsIn :
      (ip password : Text)
      → w.faults ≡ []
      → api.verify_password password u.password_hash ≡ true
      → joined (find? (has_id u.id) w.db.users) w.db.organizations ≡ ok no_factor
      → issue api u w.now ≡ some t
      → (verified api password ip u w).0 ≡ ok (signed_in u t)
  unfolding verified after_password mfa_state serve
  verified-SignsIn ip password calm fits known signed =
      let rest = complete_login-SignsIn api u (record w { faults = [] }) known signed in
      rw (fits, calm, known) rest

module _ (api : Api) (ip email password : Text) (u : User) (w : World) {t : Text} where
  -- A user who is named by the address and has no second factor signs in.
  attempt-SignsIn :
      (check_limits api ip email w).0 ≡ ok tt
      → (check_limits api ip email w).1.faults ≡ []
      → user_of (find? (has_email email) w.db.users) ≡ some u
      → api.verify_password password u.password_hash ≡ true
      → joined (find? (has_id u.id) w.db.users) w.db.organizations ≡ ok no_factor
      → issue api u w.now ≡ some t
      → (attempt api ip email password w).0 ≡ ok (signed_in u t)
  unfolding attempt user_by_email ◌>>=◌
  attempt-SignsIn admitted calm named fits known signed =
      let checks = Reads-check_limits api ip email in
      let v = (check_limits api ip email w).1 in
      let known' : joined (find? (has_id u.id) v.db.users) v.db.organizations ≡ ok no_factor =
        rw (checks.at w) known in
      let signed' : issue api u v.now ≡ some t = rw (checks.time w) signed in
      let named' : user_of (find? (has_email email) v.db.users) ≡ some u = rw (checks.at w) named in
      let rest =
        verified-SignsIn api u (record v { faults = [] }) ip password refl fits known' signed' in
      rw (admitted, calm, named') rest

-- The row that was added is the one that its address and its identifier name.
module _ (req : RegisterRequest) (hash : Text) (w : World) (after : Db) where
  named_newcomer :
      (email : Text)
      → map to_lower email ≡ map to_lower (trim_space req.email)
      → Registers req hash w after
      → user_of (find? (has_email email) after.users) ≡ some (owner_of req hash w.fresh w.now)
  unfolding citext_eq user_of
  named_newcomer email same (free, users, orgs) =
      let stored = trim_space req.email in
      let u = owner_of req hash w.fresh w.now in
      let named : has_email email ≡ has_email stored =
        λ i r. text_eq (map to_lower r.user.email) (same i) in
      let found : find? (has_email email) after.users ≡ some (new_row u) =
        rw (users, named)
          (find?-last (has_email stored) w.db.users (new_row u) free
            (text_eq_refl (map to_lower stored))) in
      ap user_of found

  known_newcomer :
      IdsBelow w.fresh w.db
      → Registers req hash w after
      → joined (find? (has_id (suc (suc w.fresh))) after.users) after.organizations ≡ ok no_factor
  known_newcomer (below, below') (free, users, orgs) =
      let n = w.fresh in
      let row = new_row (owner_of req hash n w.now) in
      let o = organization_of req n w.now in
      let user : find? (has_id (suc (suc n))) after.users ≡ some row =
        ap (find? (has_id (suc (suc n)))) users
        ∙ find?-last (has_id (suc (suc n))) w.db.users row
            (no_user_above n (suc (suc n)) w.db.users (ground arith) below) (ground arith) in
      let org : find? (λ (p : Organization). p.id == suc n) after.organizations ≡ some o =
        ap (find? (λ (p : Organization). p.id == suc n)) orgs
        ∙ find?-last (λ (p : Organization). p.id == suc n) w.db.organizations o
            (no_org_above n (suc n) w.db.organizations (ground arith) below') (ground arith) in
      rw (user, joined, org) refl

-- `VerifyPassword` accepts a password with the hash that `HashPassword` made of it.
abbrev pub HashFits : Api → Type 0
HashFits api =
    (salt : ℕ) (password hash : Text)
    → api.hash_password salt password ≡ some hash
    → api.verify_password password hash ≡ true

-- The functions of auth/password.go are of this kind, with any bytes as salts.
HashFits-hash_password :
    (argon : Argon) (api : Api) (salts : ℕ → Text)
    → ((n : ℕ) → IsBytes (salts n))
    → ((n : ℕ) (p : Text) → api.hash_password n p ≡ hash_password argon (some (salts n)) p)
    → ((p h : Text) → verify_password argon p h ≡ some true → api.verify_password p h ≡ true)
    → HashFits api
HashFits-hash_password argon api salts bytes hashes verifies n p h made =
    verifies p h
      (verify_password-hash_password argon (salts n) p p h (bytes n) (sym (hashes n p) ∙ made)).1

module _ (api : Api) (req : RegisterRequest) (hash : Text) (w : World) {r : Response} where
  -- Whoever has registered signs in with the same password, and with the same address in whatever
  -- case and with spaces around it, as the owner of the new organization, as long as the tables
  -- stand as the registration left them: if hashes fit, the tables hold no identifier that was not
  -- given out, the limiter lets the request through, the database answers and the token is signed,
  -- the answer is that of the user without a second factor, with the session's cookie.
  pub login-register :
      HashFits api
      → IdsBelow w.fresh w.db
      → api.hash_password w.fresh req.password ≡ some hash
      → (register api (some req) w).0 ≡ ok r
      → (request : Request) (email : Text) (v : World) {t : Text}
      → map to_lower (trim_space email) ≡ map to_lower (trim_space req.email)
      → v.db ≡ (register api (some req) w).1.db
      → (check_limits api (client_ip api request) (trim_space email) v).0 ≡ ok tt
      → (check_limits api (client_ip api request) (trim_space email) v).1.faults ≡ []
      → issue api (owner_of req hash w.fresh w.now) v.now ≡ some t
      → (login api request (some (record { email = email; password = req.password })) v).0
        ≡ ok (signed_in (owner_of req hash w.fresh w.now) t)
  unfolding login serve
  login-register fits below made done request email v same stored admitted calm signed =
      let (hash', made', added) = registered api req w done in
      let is : hash' ≡ hash = cc (made, made') in
      let added' : Registers req hash w v.db = rw (stored, sym is) added in
      attempt-SignsIn api (client_ip api request) (trim_space email) req.password
        (owner_of req hash w.fresh w.now) v admitted calm
        (named_newcomer req hash w v.db (trim_space email) same added')
        (fits w.fresh req.password hash made) (known_newcomer req hash w v.db below added') signed
