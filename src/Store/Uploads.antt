-- ===== src/Store/Uploads.antt =====
-- backend/gateway/internal/store/uploads.go: uploads, who sees them, and their deletion.
use mathlib.Core.List.{reverse, map}
use log_monitor_tenex.Prelude.{
  ℕ, Bool, not, Option, some, List, ◌&&◌, ◌||◌, ◌==◌, if◌then◌else◌, find?, keep_if, any, count_if,
  id_eq?,
}
use log_monitor_tenex.Store.Tables.{
  User, Upload, LogRow, Analysis, AccessGrant, Db, StatusRollup, is_admin,
}
use log_monitor_tenex.Store.Grants.{grants_access}
use log_monitor_tenex.World.{Exec, ok, err, Error, not_found, select, update, or_not_found}

abbrev pub is_upload : ℕ → Upload → Bool
is_upload id u = u.id == id

-- `UploadByID`
unfoldable pub upload_by_id : ℕ → Exec Error Upload
upload_by_id id = select λ w. or_not_found (find? (is_upload id) w.db.uploads)

-- The WHERE clause of `ListVisibleUploads`.
unfoldable pub visible : User → ℕ → List AccessGrant → Upload → Bool
unfolding is_admin grants_access
visible caller now grants u =
    u.org_id == caller.org_id
    && (u.user_id == caller.id
        || is_admin caller.role
        || any (grants_access caller.id u.org_id u.id now) grants)

-- The latest analysis of an upload (the LATERAL join).
unfoldable pub latest_analysis : ℕ → List Analysis → Option Analysis
latest_analysis upload analyses = find? (λ a. a.upload_id == upload) (reverse analyses)

-- `ListVisibleUploads`, newest first.
unfoldable pub list_visible_uploads : User → Exec Error (List (Upload × Option Analysis))
unfolding visible latest_analysis
list_visible_uploads caller = select λ w. ok (
    map (λ (u : Upload). (u, latest_analysis u.id w.db.analyses))
      (reverse (keep_if (visible caller w.now w.db.access_grants) w.db.uploads)))

abbrev pub in_upload : ℕ → LogRow → Bool
in_upload id e = e.upload_id == id

abbrev of_upload_and_org : ℕ → ℕ → LogRow → Bool
of_upload_and_org org id e = e.upload_id == id && e.org_id == org

abbrev pub is_org_upload : ℕ → ℕ → Upload → Bool
is_org_upload org id u = u.id == id && u.org_id == org

-- `ON DELETE CASCADE` from `uploads`: its analyses with their findings, its grants and its rollups.
unfoldable pub cascade : ℕ → Db → Db
cascade id d = record d {
  analyses = keep_if (λ a. not (a.upload_id == id)) d.analyses;
  anomalies =
      keep_if (λ f. not (any (λ a. a.upload_id == id && a.id == f.analysis_id) d.analyses))
        d.anomalies;
  access_grants = keep_if (λ g. not (id_eq? g.upload_id (some id))) d.access_grants;
  entry_rollups = keep_if (λ r. not (r.bucket.upload_id == id)) d.entry_rollups;
  status_rollups = keep_if (λ (r : StatusRollup). not (r.upload_id == id)) d.status_rollups;
}

abbrev delete_rows : ℕ → ℕ → Db → Db
delete_rows org id d = record (cascade id d) {
  log_entries = keep_if (λ e. not (of_upload_and_org org id e)) d.log_entries;
  uploads = keep_if (λ u. not (is_org_upload org id u)) d.uploads;
}

-- `DeleteUpload`: one transaction; it returns how many log entries went.
unfoldable pub delete_upload : ℕ → ℕ → Exec Error ℕ
unfolding cascade
delete_upload org id = update λ w.
    if any (is_org_upload org id) w.db.uploads
    then ok (count_if (of_upload_and_org org id) w.db.log_entries, delete_rows org id w.db)
    else err not_found
