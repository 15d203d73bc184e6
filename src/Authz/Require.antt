-- ===== src/Authz/Require.antt =====
-- backend/gateway/internal/authz/authz.go, `Require`: a sufficient level, or break-glass on record.
use log_monitor_tenex.Prelude.{ℕ, ◌≤◌, ◌<◌, true, [], ◌∷◌, ◌++◌, ◌≡◌, ◌⊎◌, arith}
use log_monitor_tenex.Store.Tables.{User, Upload, is_admin}
use log_monitor_tenex.Store.Grants.{best_grant_for, audit}
use log_monitor_tenex.Store.Uploads.{upload_by_id}
use log_monitor_tenex.World.{◌>>=◌, World, ok, err}
use log_monitor_tenex.Authz.Levels.{Level, rank}
use log_monitor_tenex.Authz.{AuthzError, resolve, require, breakglass}

resolve-db : (caller : User) (id : ℕ) (w : World) → (resolve caller id w).1.db ≡ w.db
unfolding resolve upload_by_id best_grant_for ◌>>=◌
resolve-db caller id w = ground arith

-- Whoever passes `Require` holds the level asked for. Either `Resolve` gave that level and the
-- database is as it was; or it gave a lower one, the caller is an administrator, the level is the
-- one asked for, and the audit log has gained exactly the record of this escalation.
pub require_justified :
    (caller : User) (id : ℕ) (need : Level) (w : World) {l : Level} {up : Upload}
    → (require caller id need w).0 ≡ ok (l, up)
    → (rank need ≤ rank l)
      × ((((resolve caller id w).0 ≡ ok (l, up)) × ((require caller id need w).1.db ≡ w.db))
          ⊎ ((m : Level) × ((resolve caller id w).0 ≡ ok (m, up))
              × (rank m < rank need)
              × (is_admin caller.role ≡ true)
              × (l ≡ need)
              × ((require caller id need w).1.db ≡ record (w.db) {
                audit_log = w.db.audit_log ++ breakglass caller up m need id ∷ [];
              })))
unfolding require audit ◌>>=◌
require_justified caller id need w {l} {up} h = ground (arith, resolve-db caller id w)

-- A refusal changes nothing in the database, also where the audit record could not be written.
pub require_refused :
    (caller : User) (id : ℕ) (need : Level) (w : World) {e : AuthzError}
    → (require caller id need w).0 ≡ err e
    → (require caller id need w).1.db ≡ w.db
unfolding require audit ◌>>=◌
require_refused caller id need w {e} h = ground (arith, resolve-db caller id w)
