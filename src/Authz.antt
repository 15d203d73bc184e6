-- ===== src/Authz.antt =====
-- backend/gateway/internal/authz/authz.go: what a caller may see of an upload.
pub mod Levels
pub mod Entitled
pub mod Resolve
pub mod Require
pub mod Visible
use log_monitor_tenex.Prelude.{
  ℕ, zero, suc, String, Text, codes, text_eq, Bool, true, false, not, Option, none, some, List, [],
  ◌∷◌, ◌&&◌, ◌==◌, ltb, leb, if◌then◌else◌,
}
use log_monitor_tenex.Store.Tables.{Role, User, Upload, AuditRecord, Value, is_admin}
use log_monitor_tenex.Store.Grants.{best_grant_for, audit}
use log_monitor_tenex.Store.Uploads.{upload_by_id}
use Levels.{Level, rank, parse_level, level_string}
use log_monitor_tenex.World.{
  World, Exec, Result, ok, err, Error, pure, raise, or_else, try, ◌>>=◌, ◌>>◌,
}

-- `ErrNotFound`, `ErrForbidden`, and an error of the store that is passed on.
pub data AuthzError : Type 0 where
  not_found forbidden : AuthzError
  store_failed : Error → AuthzError

abbrev parsed : Option Level → Level
parsed none = Level.none
parsed (some l) = l

-- The level that a grant's text gives: none without a grant, or where the text is no level.
unfoldable pub granted_level : Option Text → Level
unfolding parse_level
granted_level none = Level.none
granted_level (some s) = parsed (parse_level s)

-- Administrators see at least the dashboard.
unfoldable pub widened : Role → Level → Level
unfolding is_admin rank
widened role best =
    if is_admin role && ltb (rank best) (rank Level.dashboard) then Level.dashboard else best

abbrev decided : Upload → Level → Exec AuthzError (Level × Upload)
decided up Level.none = raise not_found
decided up best = pure (best, up)

-- `Resolve`
unfoldable pub resolve : User → ℕ → Exec AuthzError (Level × Upload)
unfolding granted_level widened
resolve caller upload_id = do
  up ← or_else (λ _. not_found) (upload_by_id upload_id)
  if not (up.org_id == caller.org_id)
      then raise not_found
      else if up.user_id == caller.id
      then pure (Level.full, up)
      else do
        grant ← or_else store_failed (best_grant_for caller.id caller.org_id upload_id)
        decided up (widened caller.role (granted_level grant))

unfoldable pub role_text : Role → Text
role_text Role.member = codes "member"
role_text Role.admin = codes "admin"
role_text Role.owner = codes "owner"

-- The audit record of an escalation.
unfoldable pub breakglass : User → Upload → Level → Level → ℕ → AuditRecord
unfolding level_string role_text
breakglass caller up level need upload_id = record {
  org_id = caller.org_id;
  actor_user_id = some caller.id;
  action = "breakglass.raw_access";
  resource_type = "upload";
  resource_id = some upload_id;
  detail =
      ("granted_level", Value.text (level_string level))
      ∷ ("required_level", Value.text (level_string need))
      ∷ ("role", Value.text (role_text caller.role))
      ∷ ("upload_owner", Value.number up.user_id)
      ∷ [];
}

-- `Require`
unfoldable pub require : User → ℕ → Level → Exec AuthzError (Level × Upload)
unfolding is_admin
require caller upload_id need = do
  (level, up) ← resolve caller upload_id
  if leb (rank need) (rank level)
      then pure (level, up)
      else if not (is_admin caller.role)
      then raise forbidden
      else do
        or_else (λ _. forbidden) (audit (breakglass caller up level need upload_id))
        pure (need, up)
