-- ===== src/Store/Findings.antt =====
-- backend/gateway/internal/store/search.go and dashboard.go: findings across uploads, and who sees
-- them.
--
-- The match and the rank of a full-text search are the database's, and given as a function.
pub mod Similar
use mathlib.Core.List.{reverse}
use log_monitor_tenex.Prelude.{
  ℕ, suc, Text, Bool, true, Option, none, some, List, [], ◌∷◌, map, take, keep_if, any, find?, ltb,
  leb, ◌==◌, ◌&&◌, ◌||◌, if◌then◌else◌, id_eq?,
}
use log_monitor_tenex.Store.Tables.{
  User, UserRow, Upload, Analysis, Anomaly, AccessGrant, AuditRecord, Db, is_admin,
}
use log_monitor_tenex.Store.Analyses.{by_urgency}
use log_monitor_tenex.Store.Dashboard.{Scope, is_user, limit_or}
use log_monitor_tenex.World.{World, Exec, ok, Error, select}

-- A finding with its analysis and its upload, as the queries join them.
pub record Finding : Type 0 where
  pub anomaly : Anomaly
  pub analysis : Analysis
  pub upload : Upload

abbrev with_upload_of : Anomaly → Option Analysis → List Upload → Option Finding
with_upload_of f none uploads = none
with_upload_of f (some a) uploads = elim (find? (λ (u : Upload). u.id == a.upload_id) uploads) [
  | none ↦ none
  | some u ↦ some record { anomaly = f; analysis = a; upload = u }
]

abbrev pub finding_of : Db → Anomaly → Option Finding
finding_of d f =
    with_upload_of f (find? (λ (a : Analysis). a.id == f.analysis_id) d.analyses) d.uploads

abbrev pub keep_found : (Finding → Bool) → Option Finding → List Finding → List Finding
keep_found p none rest = rest
keep_found p (some x) rest = if p x then x ∷ rest else rest

abbrev pub joined : (Anomaly → Option Finding) → (Finding → Bool) → List Anomaly → List Finding
joined of p [] = []
joined of p (f ∷ fs) = keep_found p (of f) (joined of p fs)

-- `visibilityClause`, and its EXISTS over the grants.
abbrev pub not_expired : ℕ → Option ℕ → Bool
not_expired now none = true
not_expired now (some t) = ltb now t

abbrev pub granted_finding : User → ℕ → Finding → AccessGrant → Bool
granted_finding caller now x g =
    g.subject_user_id == caller.id
    && g.org_id == x.upload.org_id
    && (id_eq? g.upload_id (some x.upload.id) || id_eq? g.upload_id none)
    && not_expired now g.expires_at

unfoldable pub visible_finding : User → ℕ → List AccessGrant → Finding → Bool
unfolding is_admin
visible_finding caller now grants x =
    x.upload.org_id == caller.org_id
    && (x.upload.user_id == caller.id
        || is_admin caller.role
        || any (granted_finding caller now x) grants)

-- The findings that a caller may see.
abbrev pub seen_by : User → World → List Anomaly → List Finding
seen_by caller w fs = joined (finding_of w.db) (visible_finding caller w.now w.db.access_grants) fs

-- `ActionPlan`
unfoldable pub action_plan : User → ℕ → Exec Error (List Finding)
unfolding visible_finding by_urgency limit_or
action_plan caller limit =
    select λ w. ok (take (limit_or 25 100 limit) (seen_by caller w (by_urgency w.db.anomalies)))

-- A hit of the search: the finding, and its rank.
pub record Hit : Type 0 where
  pub finding : Finding
  pub rank : ℕ

abbrev pub insert_hit : Hit → List Hit → List Hit
insert_hit h [] = h ∷ []
insert_hit h (k ∷ ks) =
    let later = insert_hit h ks in if leb k.rank h.rank then h ∷ k ∷ ks else k ∷ later

abbrev pub place_hit : Finding → Option ℕ → List Hit → List Hit
place_hit x none hits = hits
place_hit x (some n) hits = insert_hit record { finding = x; rank = n } hits

abbrev pub ranked : (Anomaly → Option ℕ) → List Finding → List Hit
ranked rank [] = []
ranked rank (x ∷ xs) = place_hit x (rank x.anomaly) (ranked rank xs)

-- `SearchFindingsText`
unfoldable pub search_findings_text :
    (Text → Anomaly → Option ℕ) → User → Text → ℕ → Exec Error (List Hit)
unfolding visible_finding limit_or
search_findings_text rank caller query limit =
    select
      λ w. ok (take (limit_or 20 100 limit) (ranked (rank query) (seen_by caller w w.db.anomalies)))

-- `FindingBreakdown`: the findings of a scope's analyses, by severity and urgency.
pub record FindingCount : Type 0 where
  pub severity : ℕ
  pub urgency : ℕ
  pub count : ℕ

abbrev count_finding : Finding → List FindingCount → List FindingCount
count_finding x [] =
    record { severity = x.anomaly.severity; urgency = x.anomaly.urgency; count = 1 } ∷ []
count_finding x (c ∷ cs) =
    let later = count_finding x cs in
    if c.severity == x.anomaly.severity && c.urgency == x.anomaly.urgency
    then record c { count = suc c.count } ∷ cs
    else c ∷ later

abbrev counts : List Finding → List FindingCount
counts [] = []
counts (x ∷ xs) = count_finding x (counts xs)

unfoldable pub finding_in : Scope → Finding → Bool
finding_in sc x =
    x.analysis.org_id == sc.org_id
    && leb sc.from x.analysis.created_at
    && ltb x.analysis.created_at sc.to
    && is_user sc.user_id x.upload.user_id

unfoldable pub finding_breakdown : Scope → Exec Error (List FindingCount)
unfolding finding_in
finding_breakdown sc =
    select λ w. ok (counts (joined (finding_of w.db) (finding_in sc) w.db.anomalies))

-- `ListAudit`: newest first, with the actor's e-mail.
abbrev email_of : List UserRow → Option ℕ → Option Text
email_of users none = none
email_of users (some id) = elim (find? (λ (r : UserRow). r.user.id == id) users) [
  | none ↦ none
  | some r ↦ some r.user.email
]

unfoldable pub list_audit : ℕ → ℕ → Exec Error (List (AuditRecord × Option Text))
unfolding limit_or
list_audit org limit = select λ w. ok (
    take (limit_or 50 200 limit) (
      map (λ (a : AuditRecord). (a, email_of w.db.users a.actor_user_id))
        (reverse (keep_if (λ (a : AuditRecord). a.org_id == org) w.db.audit_log))))
