-- ===== src/Store/Rules.antt =====
-- Which operations of the store only read, and that those which write do so as a whole or not at
-- all.
use log_monitor_tenex.Prelude.{ℕ, Text, Bool, Option, List, refl, length}
use log_monitor_tenex.Store.Tables.{User, AuditRecord, Role}
use log_monitor_tenex.Store.Grants.{
  GrantInput, best_grant_for, upsert_grant, list_grants, grant_by_id, delete_grant, audit,
}
use log_monitor_tenex.Store.Users.{
  user_by_id, user_by_email, create_member, list_org_users, org_by_id,
}
use log_monitor_tenex.Store.Uploads.{upload_by_id, list_visible_uploads, delete_upload}
use log_monitor_tenex.Store.Mfa.{
  mfa_state, stage_pending_secret, activate_mfa, disable_mfa, unused_recovery_hashes,
  burn_recovery_code, set_org_require_mfa, fresh_ids,
}
use log_monitor_tenex.Store.Analyses.{
  create_analysis, analysis_by_id, anomalies_of, count_entries, fail_analysis,
}
use log_monitor_tenex.World.{fresh_id}
use log_monitor_tenex.World.Rules.{
  Reads, Clean, Reads-select, Clean-update, Clean-bind, Reads-fresh_id,
}

pub Reads-best_grant_for : (s o u : ℕ) → Reads (best_grant_for s o u)
unfolding best_grant_for
Reads-best_grant_for s o u = Reads-select _

pub Reads-list_grants : (o : ℕ) → Reads (list_grants o)
unfolding list_grants
Reads-list_grants o = Reads-select _

pub Reads-grant_by_id : (o i : ℕ) → Reads (grant_by_id o i)
unfolding grant_by_id
Reads-grant_by_id o i = Reads-select _

pub Reads-user_by_id : (i : ℕ) → Reads (user_by_id i)
unfolding user_by_id
Reads-user_by_id i = Reads-select _

pub Reads-user_by_email : (t : Text) → Reads (user_by_email t)
unfolding user_by_email
Reads-user_by_email t = Reads-select _

pub Reads-list_org_users : (o : ℕ) → Reads (list_org_users o)
unfolding list_org_users
Reads-list_org_users o = Reads-select _

pub Reads-org_by_id : (i : ℕ) → Reads (org_by_id i)
unfolding org_by_id
Reads-org_by_id i = Reads-select _

pub Reads-upload_by_id : (i : ℕ) → Reads (upload_by_id i)
unfolding upload_by_id
Reads-upload_by_id i = Reads-select _

pub Reads-list_visible_uploads : (u : User) → Reads (list_visible_uploads u)
unfolding list_visible_uploads
Reads-list_visible_uploads u = Reads-select _

pub Reads-mfa_state : (u : ℕ) → Reads (mfa_state u)
unfolding mfa_state
Reads-mfa_state u = Reads-select _

pub Reads-unused_recovery_hashes : (u : ℕ) → Reads (unused_recovery_hashes u)
unfolding unused_recovery_hashes
Reads-unused_recovery_hashes u = Reads-select _

pub Reads-analysis_by_id : (i : ℕ) → Reads (analysis_by_id i)
unfolding analysis_by_id
Reads-analysis_by_id i = Reads-select _

pub Reads-anomalies_of : (i : ℕ) → Reads (anomalies_of i)
unfolding anomalies_of
Reads-anomalies_of i = Reads-select _

pub Reads-count_entries : (i : ℕ) → Reads (count_entries i)
unfolding count_entries
Reads-count_entries i = Reads-select _

pub Reads-fresh_ids : (n : ℕ) → Reads (fresh_ids n)
unfolding fresh_ids
Reads-fresh_ids n = record { at = λ w. refl; time = λ w. refl }

pub Clean-delete_grant : (o i : ℕ) → Clean (delete_grant o i)
unfolding delete_grant
Clean-delete_grant o i = Clean-update _

pub Clean-audit : (r : AuditRecord) → Clean (audit r)
unfolding audit
Clean-audit r = Clean-update _

pub Clean-delete_upload : (o i : ℕ) → Clean (delete_upload o i)
unfolding delete_upload
Clean-delete_upload o i = Clean-update _

pub Clean-stage_pending_secret : (u : ℕ) (s : Text) → Clean (stage_pending_secret u s)
unfolding stage_pending_secret
Clean-stage_pending_secret u s = Clean-update _

pub Clean-disable_mfa : (u : ℕ) → Clean (disable_mfa u)
unfolding disable_mfa
Clean-disable_mfa u = Clean-update _

pub Clean-burn_recovery_code : (i : ℕ) → Clean (burn_recovery_code i)
unfolding burn_recovery_code
Clean-burn_recovery_code i = Clean-update _

pub Clean-set_org_require_mfa : (o : ℕ) (b : Bool) → Clean (set_org_require_mfa o b)
unfolding set_org_require_mfa
Clean-set_org_require_mfa o b = Clean-update _

pub Clean-fail_analysis : (i : ℕ) → Clean (fail_analysis i)
unfolding fail_analysis
Clean-fail_analysis i = Clean-update _

pub Clean-upsert_grant : (i : GrantInput) → Clean (upsert_grant i)
unfolding upsert_grant
Clean-upsert_grant i = Clean-bind fresh_id _ Reads-fresh_id (λ id. Clean-update _)

pub Clean-create_member : (o : ℕ) (e h : Text) (r : Role) → Clean (create_member o e h r)
unfolding create_member
Clean-create_member o e h r = Clean-bind fresh_id _ Reads-fresh_id (λ id. Clean-update _)

pub Clean-create_analysis : (o u : ℕ) (s : Text) (x : Option ℕ) → Clean (create_analysis o u s x)
unfolding create_analysis
Clean-create_analysis o u s x = Clean-bind fresh_id _ Reads-fresh_id (λ id. Clean-update _)

pub Clean-activate_mfa : (u : ℕ) (hs : List Text) → Clean (activate_mfa u hs)
unfolding activate_mfa
Clean-activate_mfa u hs =
    Clean-bind (fresh_ids (length hs)) _ (Reads-fresh_ids (length hs)) (λ id. Clean-update _)

pub ruleset store_rules = (
  Clean-activate_mfa, Reads-fresh_ids, Reads-best_grant_for, Reads-list_grants, Reads-grant_by_id,
  Reads-user_by_id, Reads-user_by_email, Reads-list_org_users, Reads-org_by_id, Reads-upload_by_id,
  Reads-list_visible_uploads, Reads-mfa_state, Reads-unused_recovery_hashes, Reads-analysis_by_id,
  Reads-anomalies_of, Reads-count_entries, Clean-delete_grant, Clean-audit, Clean-delete_upload,
  Clean-stage_pending_secret, Clean-disable_mfa, Clean-burn_recovery_code,
  Clean-set_org_require_mfa, Clean-fail_analysis, Clean-upsert_grant, Clean-create_member,
  Clean-create_analysis,
)
