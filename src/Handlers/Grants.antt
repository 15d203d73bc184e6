-- ===== src/Handlers/Grants.antt =====
-- backend/gateway/internal/handlers/grants.go: access grants, and the list of uploads.
pub mod Safety
pub mod Create
pub mod Effect
pub mod Revoke
use log_monitor_tenex.Prelude.{
  ℕ, zero, suc, String, Text, codes, Bool, true, false, not, Option, none, some, List, [], ◌∷◌,
  ◌&&◌, ◌||◌, ◌==◌, ltb, if◌then◌else◌, keep_if,
}
use log_monitor_tenex.Store.Tables.{User, Upload, AccessGrant, AuditRecord, Value, is_admin}
use log_monitor_tenex.Store.Grants.{
  GrantInput, list_grants, upsert_grant, grant_by_id, delete_grant, audit, level_text,
}
use log_monitor_tenex.Store.Users.{user_by_id}
use log_monitor_tenex.Store.Uploads.{upload_by_id, list_visible_uploads}
use log_monitor_tenex.Authz.Levels.{parse_level, level_string}
use log_monitor_tenex.Api.{Api}
use log_monitor_tenex.Http.{
  Response, Handler, Body, no_content, grant_body, grants_body, uploads_body, json, failure,
  fail_if, or_fail, or_fail_with,
}
use log_monitor_tenex.World.{
  World, Exec, Result, ok, err, Error, not_found, pure, raise, gets, try, or_else, ◌>>=◌, ◌>>◌,
}

pub record GrantRequest : Type 0 where
  pub subject_user_id : Text
  pub upload_id : Option Text
  pub level : Text
  pub expires_at : Option ℕ

abbrev pub is_party : User → AccessGrant → Bool
is_party caller g = g.granted_by == caller.id || g.subject_user_id == caller.id

-- `listGrants`
unfoldable pub list_grants_handler : User → Handler
unfolding list_grants is_admin
list_grants_handler caller = do
  grants ← or_fail_with (list_grants caller.org_id) 500 "Could not list grants"
  pure (
      json 200
        (grants_body (if is_admin caller.role then grants else keep_if (is_party caller) grants)))

-- The upload that a grant names: it is the caller's to share, and not the subject's own.
unfoldable pub shareable : Api → User → User → Option Text → Exec Response (Option ℕ)
unfolding upload_by_id is_admin
shareable api caller subject none = do
  fail_if (not (is_admin caller.role)) 403
      "Only an administrator can issue an organization-wide grant"
  pure none
shareable api caller subject (some text) = do
  id ← or_fail (api.parse_uuid text) 400 "upload_id must be a uuid"
  up ← or_fail_with (upload_by_id id) 404 "Upload not found"
  fail_if (not (up.org_id == caller.org_id)) 404 "Upload not found"
  fail_if (not (up.user_id == caller.id) && not (is_admin caller.role)) 403
      "Only the uploader or an administrator can share this upload"
  fail_if (up.user_id == subject.id) 400 "That user already owns this upload"
  pure (some id)

abbrev is_past : ℕ → Option ℕ → Bool
is_past now none = false
is_past now (some t) = ltb t now

abbrev grant_scope : Option ℕ → Text
grant_scope none = codes "org"
grant_scope (some _) = codes "upload"

abbrev grant_created : User → User → Option ℕ → AccessGrant → AuditRecord
grant_created caller subject upload grant = record {
  org_id = caller.org_id;
  actor_user_id = some caller.id;
  action = "grant.created";
  resource_type = "access_grant";
  resource_id = some grant.id;
  detail =
      ("subject", Value.number subject.id)
      ∷ ("level", Value.text (level_text grant.level))
      ∷ ("scope", Value.text (grant_scope upload))
      ∷ [];
}

-- `createGrant` up to the write: the subject, and the grant to be made.
unfoldable pub checked_grant : Api → User → Option GrantRequest → Exec Response (User × GrantInput)
unfolding parse_level shareable level_string
checked_grant api caller body = do
  req ← or_fail body 400 "invalid request body"
  level ← or_fail (parse_level req.level) 400 "level must be one of: summary, dashboard, full"
  subject_id ← or_fail (api.parse_uuid req.subject_user_id) 400 "subject_user_id must be a uuid"
  subject ← or_fail_with (user_by_id subject_id) 404 "No such user in this organization"
  fail_if (not (subject.org_id == caller.org_id)) 404 "No such user in this organization"
  upload_id ← shareable api caller subject req.upload_id
  fail_if (subject.id == caller.id) 400 "You already have access to your own data"
  now ← gets (λ w. w.now)
  fail_if (is_past now req.expires_at) 400 "expires_at is in the past"
  pure (
    subject,
    record {
      org_id = caller.org_id;
      upload_id = upload_id;
      subject_user_id = subject.id;
      level = level_string level;
      granted_by = caller.id;
      expires_at = req.expires_at;
    },
  )

-- `createGrant`
unfoldable pub create_grant : Api → User → Option GrantRequest → Handler
unfolding level_text
create_grant api caller body = do
  (subject, input) ← checked_grant api caller body
  grant ← or_fail_with (upsert_grant input) 500 "Could not create grant"
  try {E = Error} (audit (grant_created caller subject input.upload_id grant))
  pure (json 201 (grant_body grant))

abbrev grant_revoked : User → ℕ → AccessGrant → AuditRecord
grant_revoked caller id grant = record {
  org_id = caller.org_id;
  actor_user_id = some caller.id;
  action = "grant.revoked";
  resource_type = "access_grant";
  resource_id = some id;
  detail =
      ("subject", Value.number grant.subject_user_id)
      ∷ ("level", Value.text (level_text grant.level))
      ∷ [];
}

abbrev revoke_failure : Error → Response
revoke_failure Error.not_found = failure 404 "Grant not found"
revoke_failure _ = failure 500 "Could not revoke grant"

-- `deleteGrant` up to the write: the grant that the caller may revoke.
unfoldable pub revocable : Api → User → Text → Exec Response (ℕ × AccessGrant)
unfolding is_admin
revocable api caller path_id = do
  id ← or_fail (api.parse_uuid path_id) 400 "id must be a uuid"
  grant ← or_fail_with (grant_by_id caller.org_id id) 404 "Grant not found"
  fail_if (not (grant.granted_by == caller.id) && not (is_admin caller.role)) 403
      "Only the granter or an administrator can revoke this"
  pure (id, grant)

-- `deleteGrant`
unfoldable pub delete_grant_handler : Api → User → Text → Handler
unfolding revocable level_text
delete_grant_handler api caller path_id = do
  (id, grant) ← revocable api caller path_id
  or_else revoke_failure (delete_grant caller.org_id id)
  try {E = Error} (audit (grant_revoked caller id grant))
  pure (json 204 no_content)

-- `listUploads`
unfoldable pub list_uploads_handler : User → Handler
list_uploads_handler caller = do
  uploads ← or_fail_with (list_visible_uploads caller) 500 "Could not list uploads"
  pure (json 200 (uploads_body uploads))
