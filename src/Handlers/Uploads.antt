-- ===== src/Handlers/Uploads.antt =====
-- backend/gateway/internal/handlers/uploads.go: the deletion of an upload.
pub mod Create
pub mod Deletion
pub mod Ingest
use log_monitor_tenex.Prelude.{
  ℕ, String, Text, codes, text_eq, Bool, true, false, not, Option, none, some, List, [], ◌∷◌, ◌&&◌,
  ◌==◌, if◌then◌else◌, keep_if,
}
use log_monitor_tenex.Store.Tables.{User, Upload, AuditRecord, Value, is_admin}
use log_monitor_tenex.Store.Grants.{audit}
use log_monitor_tenex.Store.Uploads.{upload_by_id, delete_upload}
use log_monitor_tenex.Api.{Api}
use log_monitor_tenex.Http.{
  Response, Handler, Body, no_content, json, failure, fail_if, or_fail, or_fail_with,
}
use log_monitor_tenex.World.{
  World, Exec, Result, ok, err, Error, unavailable, pure, raise, try, or_else, fails, called, ◌>>=◌,
  ◌>>◌,
}

-- `Blob.Delete`: a key that is gone already is no error.
unfoldable pub delete_object : Text → Exec Error Unit
unfolding fails called
delete_object key w =
    if fails w
    then (err unavailable, called w)
    else (ok tt, record (called w) { bucket = keep_if (λ k. not (text_eq k key)) w.bucket })

abbrev succeeded : Result Error Unit → Bool
succeeded (ok _) = true
succeeded (err e) = false

-- Whether the archived original is gone, or there is no archive.
unfoldable pub delete_archive : Api → Text → Exec Response Bool
unfolding delete_object
delete_archive api key =
    if api.has_blob then (do r ← try (delete_object key); pure (succeeded r)) else pure true

abbrev delete_failure : Error → Response
delete_failure Error.not_found = failure 404 "Upload not found"
delete_failure _ = failure 500 "Could not delete the upload"

unfoldable pub upload_deleted : User → Upload → ℕ → ℕ → Bool → AuditRecord
upload_deleted caller up id entries archive_deleted = record {
  org_id = caller.org_id;
  actor_user_id = some caller.id;
  action = "upload.deleted";
  resource_type = "upload";
  resource_id = some id;
  detail =
      ("filename", Value.text up.filename)
      ∷ ("owner", Value.number up.user_id)
      ∷ ("by_admin", Value.flag (not (up.user_id == caller.id)))
      ∷ ("line_count", Value.number up.line_count)
      ∷ ("entries_deleted", Value.number entries)
      ∷ ("archive_deleted", Value.flag archive_deleted)
      ∷ ("object_key", Value.text up.object_key)
      ∷ [];
}

-- `deleteUpload` up to the write: the upload that the caller may delete.
unfoldable pub deletable : Api → User → Text → Exec Response (ℕ × Upload)
unfolding is_admin
deletable api caller path_id = do
  id ← or_fail (api.parse_uuid path_id) 400 "id must be a uuid"
  up ← or_fail_with (upload_by_id id) 404 "Upload not found"
  fail_if (not (up.org_id == caller.org_id)) 404 "Upload not found"
  fail_if (not (up.user_id == caller.id) && not (is_admin caller.role)) 403
      "Only the uploader or an administrator can delete this upload"
  pure (id, up)

-- `deleteUpload`
unfoldable pub delete_upload_handler : Api → User → Text → Handler
unfolding deletable upload_deleted delete_archive
delete_upload_handler api caller path_id = do
  (id, up) ← deletable api caller path_id
  entries ← or_else delete_failure (delete_upload caller.org_id id)
  archive_deleted ← delete_archive api up.object_key
  try {E = Error} (audit (upload_deleted caller up id entries archive_deleted))
  pure (json 204 no_content)
