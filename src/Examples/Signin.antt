-- ===== src/Examples/Signin.antt =====
-- Sessions, logins and second factors of the sample organization.
use mathlib.Core.List.{Memᴰ}
use log_monitor_tenex.Prelude.{
  ℕ, ◌<◌, Text, codes, false, none, some, [], ◌≡◌, refl, arith, inl, inr, ltb, Bool-cases,
  trim_space, to_upper, ◌∷◌, any, update_if, true, Bool, List, ◌++◌, ◌∙◌,
}
use log_monitor_tenex.Store.Users.{user_by_id, user_of, has_id, user_by_email}
use log_monitor_tenex.Store.Tables.{RecoveryCode, User}
use log_monitor_tenex.Store.Mfa.{
  unused_recovery_hashes, burn_recovery_code, is_unused_of, is_unused_code, disable_mfa, mfa_state,
  MfaState,
}
use log_monitor_tenex.Api.{Claims}
use log_monitor_tenex.Session.{
  user_of_token, pending_user, issue, issue_mfa_pending, purpose_session, claims_for, purpose_mfa,
  mfa_token_ttl,
}
use log_monitor_tenex.Session.Tokens.{mfa_token, ReadsBack, UuidReads}
use log_monitor_tenex.World.{World, Error, ok, err, command}
use log_monitor_tenex.Http.{serve, failure, json, no_content}
use log_monitor_tenex.RateLimit.{
  check, get, exists, ttl, record_failure, count_failure, reset, consume,
}
use log_monitor_tenex.Handlers.Request.{Request}
use log_monitor_tenex.Handlers.Auth.{
  LoginRequest, login, attempt, check_limits, verified, after_password, invalid_credentials,
  complete_login,
}
use log_monitor_tenex.Handlers.Auth.Login.{login-Admits}
use log_monitor_tenex.Handlers.Auth.Refused.{login_refusals_alike}
use log_monitor_tenex.Handlers.Mfa.{
  burn_recovery, normalize_recovery_code, reset_member_mfa, resettable, accept_code,
  disable_mfa_handler, validate,
}
use log_monitor_tenex.Handlers.Mfa.Replay.{
  code_accepted_once, here, next, failure_recorded, time_passed,
}
use log_monitor_tenex.Handlers.Mfa.{verify_mfa}
use log_monitor_tenex.Handlers.Mfa.Disabling.{disable_mfa_replayed, without_factor}
use log_monitor_tenex.Handlers.Mfa.Recovery.{Ranges, burn_recovery_spends}
use log_monitor_tenex.Handlers.Mfa.Reset.{reset_member_mfa_sound, IsResettable, IsReset}
use log_monitor_tenex.Store.Grants.{audit}
use log_monitor_tenex.Examples.Sample.{
  carol, read_text, write_text, gateway, last_first, start, bob, token_of, claims_in,
  claims_of-write_text,
}

claims_in-token_of :
    (c : Claims) (now : ℕ) → now < c.expires_at → claims_in now (token_of c) ≡ some c
claims_in-token_of c now alive = elim (Bool-cases (ltb now c.expires_at)) [
  | inl before ↦ rw before (claims_of-write_text c)
  | inr over ↦ absurd (ground arith)
]

gateway-ReadsBack : ReadsBack gateway
gateway-ReadsBack c now t signed alive =
    let same : t ≡ token_of c = ground arith in rw same (claims_in-token_of c now alive)

gateway-UuidReads : UuidReads gateway
gateway-UuidReads id = refl

mfa_token_example :
    (user_of_token gateway purpose_session
      (some (token_of (claims_for gateway bob purpose_mfa mfa_token_ttl 990)))
      start).0
    ≡ err (failure 401 "Not authenticated")
unfolding issue_mfa_pending user_of
mfa_token_example =
    (mfa_token gateway gateway-ReadsBack gateway-UuidReads bob
      (token_of (claims_for gateway bob purpose_mfa mfa_token_ttl 990)) 990 start refl
      (ground arith) refl refl).0

abbrev request : Request
request = record {
  forwarded_for = [];
  real_ip = [];
  remote_addr = codes "1.2.3.4";
  session_cookie = none;
  mfa_cookie = none;
}

abbrev right : LoginRequest
right = record { email = codes " B@x"; password = codes "correct horse" }

abbrev wrong : LoginRequest
wrong = record { email = codes "b@x"; password = codes "guess" }

login-Admits_example : (login gateway request (some right) start).1.db ≡ start.db
unfolding login attempt check_limits check get exists ttl verified after_password user_by_email
    mfa_state issue_mfa_pending command serve
login-Admits_example = (login-Admits gateway request right start refl).1

-- Bob's password is not the one that he types.
login_refusals_alike_example :
    (login gateway request (some wrong) start).0 ≡ err invalid_credentials
unfolding check_limits check get exists ttl user_by_email command serve
login_refusals_alike_example =
    login_refusals_alike gateway request wrong start (inr (inr (refl, bob, refl, refl)))

-- Bob's code is accepted; then someone guesses at his password, and time passes.
abbrev half_way : Request
half_way = record request {
  mfa_cookie = some (token_of (claims_for gateway bob purpose_mfa mfa_token_ttl 990));
}

abbrev accepted : World
accepted = (verify_mfa gateway half_way (some (codes "123456")) start).1

abbrev guessed : World
guessed = (record_failure gateway (codes "1.2.3.4") (codes "b@x") {E = Error} accepted).1

abbrev soon : World
soon = record guessed { now = 1089 }

abbrev bob_state : MfaState
bob_state = record { enabled = true; secret = some (codes "s"); org_require = false }

-- He types it with a space the second time.
code_accepted_once_example :
    (verify_mfa gateway half_way (some (codes "123 456")) soon).0
    ≡ err (failure 401 "That code has already been used")
unfolding verify_mfa pending_user user_of_token user_by_id user_of read_text write_text accept_code
    complete_login consume reset mfa_state issue record_failure count_failure validate trim_space
    command serve
code_accepted_once_example =
    code_accepted_once gateway bob (codes "123456") half_way half_way (codes "123456")
      (codes "123 456") start soon
      (refl, bob_state, refl, refl, codes "s", refl, codes "s", refl, refl) refl refl
      (next (next here (failure_recorded (codes "1.2.3.4") (codes "b@x") accepted))
        (time_passed guessed soon refl (ground arith)))
      (refl, bob_state, refl, refl, codes "s", refl, codes "s", refl, refl) refl (ground arith)

disable_mfa_replayed_example :
    ((disable_mfa_handler gateway bob (some (codes "123456")) soon).0 ≡ ok (json 204 no_content))
    × ((disable_mfa_handler gateway bob (some (codes "123456")) soon).1.db.users
        ≡ update_if (has_id 2) without_factor soon.db.users)
unfolding verify_mfa pending_user user_of_token user_by_id read_text write_text accept_code
    complete_login consume reset mfa_state issue record_failure count_failure validate command serve
disable_mfa_replayed_example =
    disable_mfa_replayed gateway bob (codes "123456") soon refl refl refl refl refl refl refl

any-last :
    (p : ℕ × Text → Bool) (es : List (ℕ × Text)) (e : ℕ × Text)
    → any p (es ++ e ∷ []) ≡ any p (e ∷ es)
any-last p [] e = refl
any-last p (x ∷ es) e = ground (arith, any-last p es e)

gateway-Ranges : Ranges gateway
gateway-Ranges turn p [] = refl
gateway-Ranges turn p (e ∷ es) =
    any-last p (last_first es) e ∙ ground (arith, gateway-Ranges turn p es)

abbrev spare : ℕ → Text → RecoveryCode
spare id hash = record { id = id; user_id = 2; code_hash = hash; used = false }

-- Bob has two recovery codes.
abbrev spares : List RecoveryCode
spares = spare 60 (codes "ABC") ∷ spare 61 (codes "DEF") ∷ []

abbrev with_spares : World
with_spares = record start { db = record (start.db) { recovery_codes = spares } }

burn_recovery_spends_example :
    (c : RecoveryCode) × Memᴰ c spares
    × (is_unused_of 2 c ≡ true)
    × (gateway.verify_password (normalize_recovery_code (codes " abc")) c.code_hash ≡ true)
    × ((burn_recovery gateway bob (codes " abc") with_spares).1.db.recovery_codes
        ≡ update_if (is_unused_code c.id) (λ d. record d { used = true }) spares)
    × (any
          (is_unused_code c.id)
          (burn_recovery gateway bob (codes " abc") with_spares).1.db.recovery_codes
        ≡ false)
unfolding burn_recovery unused_recovery_hashes burn_recovery_code normalize_recovery_code trim_space
    to_upper serve
burn_recovery_spends_example =
    burn_recovery_spends gateway bob (codes " abc") with_spares gateway-Ranges refl

reset_member_mfa_sound_example :
    (target : User) × IsResettable gateway start.db carol (2 ∷ []) target
    × IsReset target.id start.db (reset_member_mfa gateway carol (2 ∷ []) start).1.db
unfolding reset_member_mfa resettable user_by_id disable_mfa audit serve
reset_member_mfa_sound_example = reset_member_mfa_sound gateway carol (2 ∷ []) start refl
