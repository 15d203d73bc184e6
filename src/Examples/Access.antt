-- ===== src/Examples/Access.antt =====
-- Who sees and shares the sample upload.
use log_monitor_tenex.Prelude.{◌≤◌, codes, true, none, some, [], ◌∷◌, ◌≡◌, refl, ◌↔◌}
use log_monitor_tenex.Store.Tables.{Analysis, Anomaly, AnalysisStatus, is_admin}
use log_monitor_tenex.Store.Grants.{best_grant_for, audit, upsert_grant, level_text}
use log_monitor_tenex.Store.Users.{user_by_id}
use log_monitor_tenex.Store.Uploads.{upload_by_id, visible, delete_upload}
use log_monitor_tenex.Authz.{resolve, require}
use log_monitor_tenex.Authz.Levels.{Level, rank}
use log_monitor_tenex.Authz.Entitled.{IsEntitled, overseer}
use log_monitor_tenex.Authz.Resolve.{resolve_highest, resolve_complete}
use log_monitor_tenex.Authz.Require.{require_justified}
use log_monitor_tenex.Authz.Visible.{visible_iff_resolves}
use log_monitor_tenex.World.{World, ok, ◌>>=◌}
use log_monitor_tenex.Http.{serve}
use log_monitor_tenex.Handlers.Grants.{GrantRequest, create_grant, checked_grant, shareable}
use log_monitor_tenex.Handlers.Grants.Effect.{create_grant_sound}
use log_monitor_tenex.Handlers.Uploads.{delete_upload_handler, deletable, delete_archive}
use log_monitor_tenex.Handlers.Uploads.Deletion.{delete_upload_sound}
use log_monitor_tenex.Examples.Sample.{gateway, start, alice, bob, dave, upload, grant}

resolve_highest_example : IsEntitled dave upload 1000 (grant ∷ []) Level.summary
unfolding resolve upload_by_id best_grant_for level_text ◌>>=◌
resolve_highest_example = (resolve_highest dave 5 start {l = Level.summary} {up = upload} refl).2

resolve_complete_example :
    (l : Level) × ((resolve bob 5 start).0 ≡ ok (l, upload)) × (rank Level.dashboard ≤ rank l)
unfolding is_admin
resolve_complete_example = resolve_complete bob start upload refl refl refl (overseer refl)

require_justified_example : rank Level.full ≤ rank Level.full
unfolding resolve require audit upload_by_id best_grant_for ◌>>=◌
require_justified_example =
    (require_justified bob 5 Level.full start {l = Level.full} {up = upload} refl).0

visible_iff_resolves_example :
    (visible dave 1000 (grant ∷ []) upload ≡ true)
    ↔ ((l : Level) × ((resolve dave 5 start).0 ≡ ok (l, upload)))
visible_iff_resolves_example = visible_iff_resolves dave start upload refl refl

abbrev request : GrantRequest
request = record {
  subject_user_id = 4 ∷ [];
  upload_id = some (5 ∷ []);
  level = codes "full";
  expires_at = none;
}

create_grant_sound_example :
    (serve (create_grant gateway alice (some request)) start).0.status ≡ 201
unfolding create_grant checked_grant shareable upsert_grant user_by_id upload_by_id audit serve
create_grant_sound_example = (create_grant_sound gateway alice request start refl).0

delete_upload_sound_example :
    (serve (delete_upload_handler gateway bob (5 ∷ [])) start).0.status ≡ 204
unfolding delete_upload_handler deletable upload_by_id delete_upload delete_archive audit serve
delete_upload_sound_example = (delete_upload_sound gateway bob (5 ∷ []) start refl).0

abbrev analysis : Analysis
analysis = record {
  id = 40;
  org_id = 7;
  upload_id = 5;
  status = AnalysisStatus.done;
  scope = codes "file";
  baseline_window_days = none;
  created_at = 50;
}

abbrev finding : Anomaly
finding = record { id = 41; analysis_id = 40; urgency = 2; severity = 3; entry_ids = 1 ∷ 2 ∷ [] }

-- The sample after an analysis with one finding.
abbrev analysed : World
analysed = record start {
  db = record (start.db) { analyses = analysis ∷ []; anomalies = finding ∷ [] };
}
