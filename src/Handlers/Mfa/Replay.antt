-- ===== src/Handlers/Mfa/Replay.antt =====
-- mfa.go, `verifyMFA`: a code of the authenticator lets in once.
use mathlib.Core.Path.{subst}
use log_monitor_tenex.Prelude.{
  ℕ, ◌+◌, ◌<◌, ◌≤◌, Text, codes, text_eq, text_eq_refl, true, false, some, ◌++◌, ◌≡◌, refl, sym, ap,
  ◌∙◌, inl, inr, arith, text_eq_iff, Bool-cases,
}
use log_monitor_tenex.Store.Tables.{User}
use log_monitor_tenex.Api.{Api}
use log_monitor_tenex.RateLimit.{
  consume, reset, account_key, lock_key, record_failure, count_failure, set_key, ip_key,
}
use log_monitor_tenex.Store.Mfa.{MfaState, mfa_state}
use log_monitor_tenex.Handlers.Auth.{complete_login}
use log_monitor_tenex.RateLimit.Rules.{Reads-record_failure, Reads-reset, Reads-consume}
use log_monitor_tenex.Http.{Response, serve, failure}
use log_monitor_tenex.World.{
  World, Keys, Result, ok, err, Error, fails, ◌>>=◌, command, key_of, put_key,
}
use log_monitor_tenex.Handlers.Request.{Request}
use log_monitor_tenex.Session.{pending_user}
use log_monitor_tenex.Handlers.Mfa.{accept_code, replay_key, code_ttl, verify_mfa, validate}

-- A code that Redis says was used already is refused, and nothing more is done.
accept_code-used :
    (api : Api) (u : User) (step : Text) (w : World)
    → (consume (replay_key api u step) code_ttl w).0 ≡ ok false
    → (accept_code api u step w).0 ≡ err (failure 401 "That code has already been used")
unfolding accept_code serve
accept_code-used api u step w h = ground arith

-- Where Redis keeps a used code.
abbrev used_key : Text → Text
used_key k = codes "used:" ++ k

used_key-account :
    (api : Api) (account k : Text) → text_eq (account_key api account) (used_key k) ≡ false
unfolding account_key
used_key-account api account k = refl

used_key-lock : (api : Api) (account k : Text) → text_eq (lock_key api account) (used_key k) ≡ false
unfolding lock_key account_key
used_key-lock api account k = refl

-- To complete a login leaves the used codes alone.
complete_login-used :
    (api : Api) (u : User) (k : Text) (w : World)
    → (complete_login api u w).1.redis (used_key k) ≡ w.redis (used_key k)
unfolding complete_login reset command put_key mfa_state serve
complete_login-used api u k w =
    ground (arith, used_key-account api u.email k, used_key-lock api u.email k)

-- A code that was accepted is on record until its time is over.
accept_code-kept :
    (api : Api) (u : User) (step : Text) (w : World) {r : Response}
    → fails w ≡ false
    → (accept_code api u step w).0 ≡ ok r
    → (accept_code api u step w).1.redis (used_key (replay_key api u step))
      ≡ some (record { value = 1; expires = some (w.now + code_ttl) })
unfolding accept_code consume command put_key key_of serve
accept_code-kept api u step w {r} up h =
    let same = text_eq_refl (used_key (replay_key api u step)) in
    let kept =
      complete_login-used api u (replay_key api u step)
        (consume (replay_key api u step) code_ttl w).1 in
    ground (arith, same, kept)

-- What may happen to the keys of Redis and to the time between two requests: the operations of the
-- limiter, on whatever they are called, and anything outside of Redis.
pub data Step (api : Api) : World → World → Type 0 where
  failure_recorded :
      (ip account : Text) (w : World) → Step api w (record_failure api ip account {E = Error} w).1
  account_reset : (account : Text) (w : World) → Step api w (reset api account {E = Error} w).1
  code_consumed : (key : Text) (n : ℕ) (w : World) → Step api w (consume key n w).1
  time_passed : (w v : World) → v.redis ≡ w.redis → w.now ≤ v.now → Step api w v

pub data Reach (api : Api) (w : World) : World → Type 0 where
  here : Reach api w w
  next : {u v : World} → Reach api w u → Step api u v → Reach api w v

-- A used code is on record until its time is over.
abbrev IsKept : Text → ℕ → World → Type 0
IsKept k end w =
    w.now < end → w.redis (used_key k) ≡ some (record { value = 1; expires = some end })

used_key-ip : (ip k : Text) → text_eq (ip_key ip) (used_key k) ≡ false
unfolding ip_key
used_key-ip ip k = refl

module _ (api : Api) (k account : Text) (w : World) where
  record_failure-used :
      (ip : Text)
      → (record_failure api ip account {E = Error} w).1.redis (used_key k) ≡ w.redis (used_key k)
  unfolding record_failure count_failure set_key command ◌>>=◌ put_key
  record_failure-used ip =
      ground (arith, used_key-ip ip k, used_key-account api account k, used_key-lock api account k)

  reset-used : (reset api account {E = Error} w).1.redis (used_key k) ≡ w.redis (used_key k)
  unfolding reset command ◌>>=◌ put_key
  reset-used = ground (arith, used_key-account api account k, used_key-lock api account k)

module _ (api : Api) (k : Text) (end : ℕ) where
  consume-used :
      (key : Text) (n : ℕ) (w : World)
      → w.now < end
      → w.redis (used_key k) ≡ some (record { value = 1; expires = some end })
      → (consume key n w).1.redis (used_key k) ≡ some (record { value = 1; expires = some end })
  unfolding consume command put_key key_of
  consume-used key n w before found = elim (Bool-cases (text_eq (used_key key) (used_key k))) [
    | inl same ↦
        let e : used_key key ≡ used_key k = (text_eq_iff (used_key key) (used_key k)).0 same in
        let at_key = ap w.redis e ∙ found in ground arith
    | inr other ↦ ground (arith, other)
  ]

  Step-IsKept : {u v : World} → Step api u v → IsKept k end u → IsKept k end v
  Step-IsKept (failure_recorded ip account w) h before =
      let same = (Reads-record_failure api {E = Error} ip account).time w in
      record_failure-used api k account w ip ∙ h (rw (sym same) before)
  Step-IsKept (account_reset account w) h before =
      let same = (Reads-reset api {E = Error} account).time w in
      reset-used api k account w ∙ h (rw (sym same) before)
  Step-IsKept (code_consumed key n w) h before =
      let same = (Reads-consume key n).time w in
      let still : w.now < end = rw (sym same) before in consume-used key n w still (h still)
  Step-IsKept (time_passed w v same later) h before =
      ap (λ (f : Keys). f (used_key k)) same ∙ h (omega (arith, later, before))

  Reach-IsKept : {u v : World} → IsKept k end u → Reach api u v → IsKept k end v
  Reach-IsKept h here = h
  Reach-IsKept h (next r s) = Step-IsKept s (Reach-IsKept h r)

consume-kept :
    (k : Text) (n t : ℕ) (w : World)
    → fails w ≡ false
    → w.redis (used_key k) ≡ some (record { value = 1; expires = some t })
    → w.now < t
    → (consume k n w).0 ≡ ok false
unfolding consume command key_of
consume-kept k n t w up found before = ground arith

accept_code-once :
    (api : Api) (u : User) (step : Text) (w v : World) {r : Response}
    → fails w ≡ false
    → (accept_code api u step w).0 ≡ ok r
    → Reach api (accept_code api u step w).1 v
    → fails v ≡ false
    → v.now < w.now + code_ttl
    → (accept_code api u step v).0 ≡ err (failure 401 "That code has already been used")
accept_code-once api u step w v {r} up h steps answers before =
    let k = replay_key api u step in
    let kept =
      Reach-IsKept api k (w.now + code_ttl) (λ _. accept_code-kept api u step w {r = r} up h)
        steps in
    accept_code-used api u step v
      (consume-kept k code_ttl (w.now + code_ttl) v answers (kept before) before)

-- A request whose cookie names the user, with a valid code of the authenticator, which is normalised
-- to `step`; the database answers.
abbrev pub IsCode : Api → Request → User → Text → Text → World → Type 0
IsCode api request u code step w =
    (pending_user api request.mfa_cookie w ≡ (ok u, w))
    × (s : MfaState) × (mfa_state u.id w ≡ (ok s, w))
    × (s.enabled ≡ true)
    × (sealed : Text) × (s.secret ≡ some sealed)
    × (secret : Text) × (api.decrypt sealed api.totp_encryption_key ≡ some secret)
    × (validate api code secret w.now ≡ some step)

verify_mfa-accept :
    (api : Api) (request : Request) (u : User) (code step : Text) (w : World)
    → IsCode api request u code step w
    → verify_mfa api request (some code) w ≡ accept_code api u step w
unfolding verify_mfa serve
verify_mfa-accept api request u code step w
      (named, s, state, on, sealed, stored, secret, opened, valid) =
    rw (named, state, on, stored, opened, valid) refl

-- A valid code of the authenticator that `verifyMFA` accepted is refused by `verifyMFA` for ninety
-- seconds after, in whatever request and whatever the limiter does in between: where Redis answered
-- when it was accepted, and the database and Redis answer when it comes again.
pub code_accepted_once :
    (api : Api) (u : User) (step : Text) (request again : Request) (code typed : Text) (w v : World)
    {r : Response}
    → IsCode api request u code step w
    → fails w ≡ false
    → (verify_mfa api request (some code) w).0 ≡ ok r
    → Reach api (verify_mfa api request (some code) w).1 v
    → IsCode api again u typed step v
    → fails v ≡ false
    → v.now < w.now + code_ttl
    → (verify_mfa api again (some typed) v).0 ≡ err (failure 401 "That code has already been used")
code_accepted_once api u step request again code typed w v {r} first up h steps second answers
      before =
    let was = verify_mfa-accept api request u code step w first in
    ap (λ (x : Result Response Response × World). x.0)
      (verify_mfa-accept api again u typed step v second)
    ∙ accept_code-once api u step w v {r = r} up
        (ap (λ (x : Result Response Response × World). x.0) (sym was) ∙ h)
        (subst (λ (x : Result Response Response × World). Reach api x.1 v) was steps) answers before
