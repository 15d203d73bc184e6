-- ===== src/Session/Tokens.antt =====
-- session.go: a token opens exactly what its purpose names.
use log_monitor_tenex.Prelude.{ℕ, ◌+◌, ◌<◌, Text, some, [], ◌≡◌, arith, find?}
use log_monitor_tenex.Store.Tables.{User}
use log_monitor_tenex.Store.Users.{user_by_id, user_of, has_id}
use log_monitor_tenex.Api.{Api, Claims}
use log_monitor_tenex.Http.{serve, failure}
use log_monitor_tenex.World.{World, ok, err}
use log_monitor_tenex.Session.{
  user_of_token, claims_for, issue, issue_mfa_pending, purpose_session, purpose_mfa, token_ttl,
  mfa_token_ttl, pending_user,
}

-- What the gateway relies on in the token library: a token that it signed is read back as the
-- claims that were signed, as long as these have not expired.
abbrev pub ReadsBack : Api → Type 0
ReadsBack api =
    (c : Claims) (now : ℕ) (t : Text)
    → api.sign api.jwt_secret c ≡ some t
    → now < c.expires_at
    → api.parse_token api.jwt_secret now t ≡ some c

-- ... and in the uuid package.
abbrev pub UuidReads : Api → Type 0
UuidReads api = (id : ℕ) → api.parse_uuid (api.uuid_text id) ≡ some id

module _ (api : Api) (reads : ReadsBack api) (uuids : UuidReads api) where
  -- A token issued for a session opens a session for its user, until it expires, and is refused as
  -- proof of a pending second factor.
  pub session_token :
      (u : User) (t : Text) (issued : ℕ) (w : World)
      → issue api u issued ≡ some t
      → w.now < issued + token_ttl
      → w.faults ≡ []
      → user_of (find? (has_id u.id) w.db.users) ≡ some u
      → ((user_of_token api purpose_session (some t) w).0 ≡ ok u)
        × ((pending_user api (some t) w).0 ≡ err (failure 401 "Not authenticated"))
  unfolding issue user_of_token pending_user user_by_id serve claims_for
  session_token u t issued w signed alive quiet there =
      let back = reads (claims_for api u purpose_session token_ttl issued) w.now t signed alive in
      (ground (arith, back, uuids u.id), ground (arith, back))

  -- A token issued after the password alone opens no session.
  pub mfa_token :
      (u : User) (t : Text) (issued : ℕ) (w : World)
      → issue_mfa_pending api u issued ≡ some t
      → w.now < issued + mfa_token_ttl
      → w.faults ≡ []
      → user_of (find? (has_id u.id) w.db.users) ≡ some u
      → ((user_of_token api purpose_session (some t) w).0 ≡ err (failure 401 "Not authenticated"))
        × ((pending_user api (some t) w).0 ≡ ok u)
  unfolding issue_mfa_pending user_of_token pending_user user_by_id serve claims_for
  mfa_token u t issued w signed alive quiet there =
      let back = reads (claims_for api u purpose_mfa mfa_token_ttl issued) w.now t signed alive in
      (ground (arith, back), ground (arith, back, uuids u.id))
