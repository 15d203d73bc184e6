-- ===== src/Store/Grants.antt =====
-- backend/gateway/internal/store/grants.go: access grants and the audit log.
pub mod Unique
use mathlib.Core.List.{reverse}
use log_monitor_tenex.Prelude.{
  ℕ, zero, suc, String, Text, codes, text_eq, Bool, true, false, Option, none, some, List, [], ◌∷◌,
  ◌++◌, ◌&&◌, ◌||◌, not, ◌==◌, ltb, leb, if◌then◌else◌, id_eq?, find?, keep_if, any, update_if,
}
use log_monitor_tenex.Store.Tables.{AccessLevel, AccessGrant, AuditRecord, Value, Db}
use log_monitor_tenex.World.{
  World, Exec, Result, ok, err, Error, not_found, unavailable, select, update, fresh_id,
  or_not_found, ◌>>=◌, gets,
}

-- The order of the enum `access_level`.
unfoldable pub order : AccessLevel → ℕ
order AccessLevel.summary = 1
order AccessLevel.dashboard = 2
order AccessLevel.full = 3

-- A level as the driver reads and writes it.
unfoldable pub level_text : AccessLevel → Text
level_text AccessLevel.summary = codes "summary"
level_text AccessLevel.dashboard = codes "dashboard"
level_text AccessLevel.full = codes "full"

unfoldable pub level_of_text : Text → Option AccessLevel
level_of_text s =
    if text_eq s (codes "summary")
    then some AccessLevel.summary
    else if text_eq s (codes "dashboard")
    then some AccessLevel.dashboard
    else if text_eq s (codes "full")
    then some AccessLevel.full
    else none

-- `expires_at IS NULL OR expires_at > now()`
abbrev pub is_live : ℕ → Option ℕ → Bool
is_live now none = true
is_live now (some t) = ltb now t

-- `upload_id = $3 OR upload_id IS NULL`
abbrev pub covers : ℕ → Option ℕ → Bool
covers upload none = true
covers upload (some u) = u == upload

-- The WHERE clause that `BestGrantFor` and `ListVisibleUploads` share.
unfoldable pub grants_access : ℕ → ℕ → ℕ → ℕ → AccessGrant → Bool
grants_access subject org upload now g =
    g.subject_user_id == subject
    && g.org_id == org
    && covers upload g.upload_id
    && is_live now g.expires_at

unfoldable pub higher : AccessLevel → Option AccessLevel → AccessLevel
unfolding order
higher l none = l
higher l (some m) = if ltb (order l) (order m) then m else l

-- `ORDER BY level DESC LIMIT 1` over the rows that meet the test.
unfoldable pub best_level : (AccessGrant → Bool) → List AccessGrant → Option AccessLevel
unfolding higher
best_level p [] = none
best_level p (g ∷ gs) =
    let rest = best_level p gs in if p g then some (higher g.level rest) else rest

abbrev pub text_of_best : Option AccessLevel → Option Text
text_of_best none = none
text_of_best (some l) = some (level_text l)

-- `BestGrantFor`: `none` where no grant is live.
unfoldable pub best_grant_for : ℕ → ℕ → ℕ → Exec Error (Option Text)
unfolding best_level grants_access
best_grant_for subject org upload =
    select λ w.
      ok (text_of_best (best_level (grants_access subject org upload w.now) w.db.access_grants))

pub record GrantInput : Type 0 where
  pub org_id : ℕ
  pub upload_id : Option ℕ
  pub subject_user_id : ℕ
  pub level : Text
  pub granted_by : ℕ
  pub expires_at : Option ℕ

-- The two partial unique indexes: one grant for a subject and an upload, one for a subject and an
-- organization.
unfoldable pub same_target : ℕ → Option ℕ → ℕ → AccessGrant → Bool
same_target org none subject g =
    id_eq? g.upload_id none && g.subject_user_id == subject && g.org_id == org
same_target org (some u) subject g = id_eq? g.upload_id (some u) && g.subject_user_id == subject

-- `DO UPDATE SET`
abbrev regrant : GrantInput → AccessLevel → AccessGrant → AccessGrant
regrant i l g = record g { level = l; granted_by = i.granted_by; expires_at = i.expires_at }

abbrev new_grant : GrantInput → AccessLevel → ℕ → ℕ → AccessGrant
new_grant i l id now = record {
  id = id;
  org_id = i.org_id;
  upload_id = i.upload_id;
  subject_user_id = i.subject_user_id;
  level = l;
  granted_by = i.granted_by;
  expires_at = i.expires_at;
  created_at = now;
}

-- The table after the statement.
unfoldable pub upserted : GrantInput → AccessLevel → ℕ → ℕ → List AccessGrant → List AccessGrant
unfolding same_target
upserted i l id now gs =
    let hit = same_target i.org_id i.upload_id i.subject_user_id in
    if any hit gs then update_if hit (regrant i l) gs else gs ++ new_grant i l id now ∷ []

abbrev upsert : GrantInput → ℕ → World → Option AccessLevel → Result Error (AccessGrant × Db)
upsert i id w none = err unavailable
upsert i id w (some l) =
    let gs = upserted i l id w.now w.db.access_grants in
    elim (find? (same_target i.org_id i.upload_id i.subject_user_id) gs) [
      | none ↦ err not_found
      | some g ↦ ok (g, record (w.db) { access_grants = gs })
    ]

-- `UpsertGrant`; a level that the enum does not have is refused by the database.
unfoldable pub upsert_grant : GrantInput → Exec Error AccessGrant
unfolding upserted level_of_text same_target
upsert_grant i = do id ← fresh_id; update (λ w. upsert i id w (level_of_text i.level))

-- `ListGrants`, newest first.
unfoldable pub list_grants : ℕ → Exec Error (List AccessGrant)
list_grants org = select λ w. ok (reverse (keep_if (λ g. g.org_id == org) w.db.access_grants))

abbrev pub is_grant : ℕ → ℕ → AccessGrant → Bool
is_grant org id g = g.id == id && g.org_id == org

unfoldable pub grant_by_id : ℕ → ℕ → Exec Error AccessGrant
grant_by_id org id = select λ w. or_not_found (find? (is_grant org id) w.db.access_grants)

-- `DeleteGrant`: no row affected is `ErrNotFound`.
unfoldable pub delete_grant : ℕ → ℕ → Exec Error Unit
delete_grant org id = update λ w.
    if any (is_grant org id) w.db.access_grants
    then ok (
      tt,
      record (w.db) { access_grants = keep_if (λ g. not (is_grant org id g)) w.db.access_grants },
    )
    else err not_found

-- `Audit`
unfoldable pub audit : AuditRecord → Exec Error Unit
audit r = update λ w. ok (tt, record (w.db) { audit_log = w.db.audit_log ++ r ∷ [] })
