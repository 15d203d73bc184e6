-- ===== src/Handlers/Mfa/Disabling.antt =====
-- mfa.go, `disableMFA`: which codes it takes.
use log_monitor_tenex.Prelude.{Text, true, false, some, none, [], ◌≡◌, arith, update_if}
use log_monitor_tenex.Store.Tables.{User, UserRow}
use log_monitor_tenex.Store.Users.{has_id}
use log_monitor_tenex.Store.Grants.{audit}
use log_monitor_tenex.Store.Mfa.{MfaState, mfa_state, disable_mfa}
use log_monitor_tenex.Api.{Api}
use log_monitor_tenex.RateLimit.{consume}
use log_monitor_tenex.Http.{json, no_content, serve}
use log_monitor_tenex.World.{World, ok}
use log_monitor_tenex.Handlers.Mfa.{
  disable_mfa_handler, validate, replay_key, code_ttl, text_or_empty,
}

abbrev pub without_factor : UserRow → UserRow
without_factor r = record r { totp_enabled = false; totp_secret = none }

-- A code that is valid turns the second factor off although it counts as used, where the
-- organization does not ask for the factor and no call fails.
pub disable_mfa_replayed :
    (api : Api) (caller : User) (code : Text) (w : World) {s : MfaState} {secret step : Text}
    → w.faults ≡ []
    → (mfa_state caller.id w).0 ≡ ok s
    → s.enabled ≡ true
    → s.org_require ≡ false
    → api.decrypt (text_or_empty s.secret) api.totp_encryption_key ≡ some secret
    → validate api code secret w.now ≡ some step
    → (consume (replay_key api caller step) code_ttl w).0 ≡ ok false
    → ((disable_mfa_handler api caller (some code) w).0 ≡ ok (json 204 no_content))
      × ((disable_mfa_handler api caller (some code) w).1.db.users
          ≡ update_if (has_id caller.id) without_factor w.db.users)
unfolding disable_mfa_handler mfa_state disable_mfa audit serve
disable_mfa_replayed api caller code w calm known on free opened valid used =
    (ground arith, ground arith)
