-- ===== src/Handlers/Mfa.antt =====
-- backend/gateway/internal/handlers/mfa.go, with `Validate` and `NormalizeRecoveryCode` of
-- internal/mfa/mfa.go: the second factor.
pub mod Replay
pub mod Recovery
pub mod Reset
pub mod Enrolment
pub mod Disabling
use log_monitor_tenex.Prelude.{
  ℕ, zero, suc, String, Text, codes, Bool, true, false, not, Option, none, some, List, [], ◌∷◌,
  ◌++◌, map, ◌==◌, ◌&&◌, ◌||◌, if◌then◌else◌, trim_space, to_upper, keep_if, find?, text_eq, length,
}
use log_monitor_tenex.Store.Tables.{User, RecoveryCode, AuditRecord, Value, is_admin}
use log_monitor_tenex.Store.Grants.{audit}
use log_monitor_tenex.Store.Users.{user_by_id}
use log_monitor_tenex.Store.Mfa.{
  MfaState, mfa_state, stage_pending_secret, activate_mfa, disable_mfa, unused_recovery_hashes,
  burn_recovery_code, set_org_require_mfa,
}
use log_monitor_tenex.Api.{Api}
use log_monitor_tenex.Session.{pending_user}
use log_monitor_tenex.RateLimit.{consume, record_failure}
use log_monitor_tenex.Http.{
  Response, Handler, Body, no_content, enrolment_body, recovery_codes_body, policy_body, json,
  failure, fail_if, or_fail, or_fail_with,
}
use log_monitor_tenex.Handlers.Request.{Request, client_ip}
use log_monitor_tenex.Handlers.Auth.{complete_login}
use log_monitor_tenex.World.{
  World, Exec, Result, ok, err, Error, pure, raise, gets, try, fresh_id, ◌>>=◌, ◌>>◌,
}

-- `strings.ReplaceAll(s, " ", "")`
abbrev without_spaces : Text → Text
without_spaces s = keep_if (λ c. not (c == 32)) s

-- `NormalizeRecoveryCode`
unfoldable pub normalize_recovery_code : Text → Text
unfolding trim_space to_upper
normalize_recovery_code s = map to_upper (trim_space (without_spaces s))

-- `Validate`: the normalised code, where it is valid.
unfoldable pub validate : Api → Text → Text → ℕ → Option Text
unfolding trim_space
validate api code secret now =
    let c = trim_space (without_spaces code) in if api.totp_valid c secret now then some c else none

abbrev pub code_ttl : ℕ
code_ttl = 90

-- The key under which a code counts as used: the user and the code itself.
unfoldable pub replay_key : Api → User → Text → Text
replay_key api u code = codes "totp:" ++ (api.uuid_text u.id ++ (codes ":" ++ code))

-- Whether Redis says that the key was used; where it does not answer, the code counts as fresh.
abbrev pub is_used : Result Error Bool → Bool
is_used (ok fresh) = not fresh
is_used (err e) = false

unfoldable pub user_event : User → String → ℕ → List (String × Value) → AuditRecord
user_event actor action user fields = record {
  org_id = actor.org_id;
  actor_user_id = some actor.id;
  action = action;
  resource_type = "user";
  resource_id = some user;
  detail = fields;
}

-- `enrollMFA`
unfoldable pub enroll_mfa : Api → User → Handler
enroll_mfa api caller = do
  fail_if (not (length api.totp_encryption_key == 32)) 503
      "Multi-factor authentication is not configured on this server"
  seed ← fresh_id
  (secret, uri) ← or_fail (api.generate_secret seed caller.email) 500 "Could not start enrolment"
  nonce ← fresh_id
  sealed ←
      or_fail (api.encrypt nonce secret api.totp_encryption_key) 500 "Could not start enrolment"
  or_fail_with (stage_pending_secret caller.id sealed) 500 "Could not start enrolment"
  pure (json 200 (enrolment_body uri secret))

-- `GenerateRecoveryCodes`, and the loop that hashes them.
unfoldable pub recovery_codes : Api → ℕ → Exec Response (List Text)
recovery_codes api zero = pure []
recovery_codes api (suc n) = do
  seed ← fresh_id
  code ← or_fail (api.recovery_code seed) 500 "Could not generate recovery codes"
  rest ← recovery_codes api n
  pure (code ∷ rest)

unfoldable pub hash_codes : Api → List Text → Exec Response (List Text)
unfolding normalize_recovery_code
hash_codes api [] = pure []
hash_codes api (c ∷ cs) = do
  salt ← fresh_id
  h ←
      or_fail (api.hash_password salt (normalize_recovery_code c)) 500
        "Could not store recovery codes"
  rest ← hash_codes api cs
  pure (h ∷ rest)

abbrev pub recovery_code_qty : ℕ
recovery_code_qty = 10

abbrev secret_of : Result Error MfaState → Option Text
secret_of (ok s) = s.secret
secret_of (err e) = none

-- The enabled state with its secret, or nothing.
abbrev enabled_secret : Result Error MfaState → Option Text
enabled_secret (ok s) = if s.enabled then s.secret else none
enabled_secret (err e) = none

-- `activateMFA`
unfoldable pub activate_mfa_handler : Api → User → Option Text → Handler
unfolding validate replay_key recovery_codes hash_codes user_event
activate_mfa_handler api caller body = do
  code ← or_fail body 400 "invalid request body"
  state ← try (mfa_state caller.id)
  sealed ← or_fail (secret_of state) 400 "Start enrolment first"
  secret ←
      or_fail (api.decrypt sealed api.totp_encryption_key) 500 "Could not read the stored secret"
  now ← gets (λ w. w.now)
  step ← or_fail (validate api code secret now) 400 "That code is not valid"
  fresh ← try (consume (replay_key api caller step) code_ttl)
  fail_if (is_used fresh) 400 "That code has already been used"
  new ← recovery_codes api recovery_code_qty
  hashes ← hash_codes api new
  or_fail_with (activate_mfa caller.id hashes) 500 "Could not enable multi-factor authentication"
  try {E = Error} (audit (user_event caller "mfa.enabled" caller.id []))
  pure (json 200 (recovery_codes_body new))

abbrev hashes_of : Result Error (List (ℕ × Text)) → List (ℕ × Text)
hashes_of (ok cs) = cs
hashes_of (err e) = []

abbrev burnt : Result Error Unit → Bool
burnt (ok _) = true
burnt (err e) = false

abbrev burn : Option (ℕ × Text) → Exec Response Bool
burn none = pure false
burn (some (id, h)) = do r ← try (burn_recovery_code id); pure (burnt r)

-- `burnRecoveryCode`: of the unused codes the first whose hash fits, in the order of the range over
-- the map, is spent.
unfoldable pub burn_recovery : Api → User → Text → Exec Response Bool
unfolding normalize_recovery_code
burn_recovery api user input =
    let candidate = normalize_recovery_code input in
    if text_eq candidate [] then pure false else do
      unused ← try (unused_recovery_hashes user.id)
      turn ← fresh_id
      burn (
          find? (λ (e : ℕ × Text). api.verify_password candidate e.1)
            (api.range_map turn (hashes_of unused)))

-- The second factor is settled by a code of the authenticator.
unfoldable pub accept_code : Api → User → Text → Handler
unfolding replay_key
accept_code api user step = do
  fresh ← try (consume (replay_key api user step) code_ttl)
  fail_if (is_used fresh) 401 "That code has already been used"
  complete_login api user

-- … or by a recovery code.
unfoldable pub accept_recovery : Api → Request → User → Text → Handler
unfolding burn_recovery user_event
accept_recovery api request user code = do
  spent ← burn_recovery api user code
  if spent
      then (do
        try {E = Error} (audit (user_event user "mfa.recovery_code_used" user.id []))
        complete_login api user)
      else (do
        record_failure api (client_ip api request) user.email
        raise (failure 401 "That code is not valid"))

abbrev second_factor : Api → Request → User → Text → Option Text → Handler
second_factor api request user code (some step) = accept_code api user step
second_factor api request user code none = accept_recovery api request user code

-- `verifyMFA`
unfoldable pub verify_mfa : Api → Request → Option Text → Handler
unfolding validate
verify_mfa api request body = do
  user ← pending_user api request.mfa_cookie
  code ← or_fail body 400 "invalid request body"
  state ← try (mfa_state user.id)
  sealed ← or_fail (enabled_secret state) 400 "Multi-factor authentication is not enabled"
  secret ←
      or_fail (api.decrypt sealed api.totp_encryption_key) 500 "Could not read the stored secret"
  now ← gets (λ w. w.now)
  second_factor api request user code (validate api code secret now)

abbrev enabled_state : Result Error MfaState → Option MfaState
enabled_state (ok s) = if s.enabled then some s else none
enabled_state (err e) = none

abbrev pub text_or_empty : Option Text → Text
text_or_empty none = []
text_or_empty (some s) = s

abbrev confirmed : Api → User → Text → Option Text → Exec Response Bool
confirmed api caller code (some step) = pure true
confirmed api caller code none = burn_recovery api caller code

-- `disableMFA`; a missing secret reaches `Decrypt` as no bytes.
unfoldable pub disable_mfa_handler : Api → User → Option Text → Handler
unfolding validate user_event
disable_mfa_handler api caller body = do
  code ← or_fail body 400 "invalid request body"
  found ← try (mfa_state caller.id)
  state ← or_fail (enabled_state found) 400 "Multi-factor authentication is not enabled"
  fail_if state.org_require 403 "Your organization requires multi-factor authentication"
  secret ←
      or_fail (api.decrypt (text_or_empty state.secret) api.totp_encryption_key) 500
        "Could not read the stored secret"
  now ← gets (λ w. w.now)
  proven ← confirmed api caller code (validate api code secret now)
  fail_if (not proven) 401 "That code is not valid"
  or_fail_with (disable_mfa caller.id) 500 "Could not disable multi-factor authentication"
  try {E = Error} (audit (user_event caller "mfa.disabled" caller.id []))
  pure (json 204 no_content)

-- `resetMemberMFA` up to the write: the member whose second factor the caller may reset.
unfoldable pub resettable : Api → User → Text → Exec Response User
unfolding is_admin
resettable api caller path_id = do
  fail_if (not (is_admin caller.role)) 403
      "Only an administrator can reset multi-factor authentication"
  target_id ← or_fail (api.parse_uuid path_id) 400 "id must be a uuid"
  fail_if (target_id == caller.id) 403
      "You cannot reset your own second factor; ask another administrator"
  target ← or_fail_with (user_by_id target_id) 404 "No such user in this organization"
  fail_if (not (target.org_id == caller.org_id)) 404 "No such user in this organization"
  pure target

-- `resetMemberMFA`
unfoldable pub reset_member_mfa : Api → User → Text → Handler
unfolding resettable user_event
reset_member_mfa api caller path_id = do
  target ← resettable api caller path_id
  or_fail_with (disable_mfa target.id) 500 "Could not reset multi-factor authentication"
  try {E = Error} (
      audit (
        user_event caller "mfa.reset_by_admin" target.id
          (("target_email", Value.text target.email) ∷ [])))
  pure (json 204 no_content)

abbrev policy_event : User → Bool → AuditRecord
policy_event caller required = record {
  org_id = caller.org_id;
  actor_user_id = some caller.id;
  action = "org.mfa_policy_changed";
  resource_type = "organization";
  resource_id = some caller.org_id;
  detail = ("require_mfa", Value.flag required) ∷ [];
}

-- `setOrgMFAPolicy`
unfoldable pub set_org_mfa_policy : User → Option Bool → Handler
unfolding is_admin
set_org_mfa_policy caller body = do
  fail_if (not (is_admin caller.role)) 403 "Only an administrator can change this policy"
  required ← or_fail body 400 "invalid request body"
  or_fail_with (set_org_require_mfa caller.org_id required) 500 "Could not update the policy"
  try {E = Error} (audit (policy_event caller required))
  pure (json 200 (policy_body required))
