-- ===== src/Store/Tables.antt =====
-- backend/gateway/internal/store/store.go and the row types beside it: one record for each struct,
-- and the tables of the database as lists of rows, in the order of insertion.
use log_monitor_tenex.Parser.{Entry}
use log_monitor_tenex.Prelude.{ℕ, String, Text, Bool, true, false, Option, List}

-- Identifiers and times are numbers: a uuid is only compared, a time only compared and shifted.
pub data Role : Type 0 where
  member admin owner : Role

-- `Role.IsAdmin`.
unfoldable pub is_admin : Role → Bool
is_admin Role.member = false
is_admin Role.admin = true
is_admin Role.owner = true

pub record Organization : Type 0 where
  pub id : ℕ
  pub name : Text
  pub slug : Text
  pub created_at : ℕ
  pub require_mfa : Bool

pub record User : Type 0 where
  pub id : ℕ
  pub org_id : ℕ
  pub email : Text
  pub password_hash : Text
  pub role : Role
  pub created_at : ℕ

-- A row of `users`: the struct, and the columns that only `MFAState` reads.
pub record UserRow : Type 0 where
  pub user : User
  pub totp_enabled : Bool
  pub totp_secret : Option Text

pub record Upload : Type 0 where
  pub id : ℕ
  pub org_id : ℕ
  pub user_id : ℕ
  pub filename : Text
  pub byte_size : ℕ
  pub line_count : ℕ
  pub parsed_count : ℕ
  pub format : Text
  pub object_key : Text
  pub created_at : ℕ

-- The database's enum `access_level`, in its order.
pub data AccessLevel : Type 0 where
  summary dashboard full : AccessLevel

pub record AccessGrant : Type 0 where
  pub id : ℕ
  pub org_id : ℕ
  pub upload_id : Option ℕ
  pub subject_user_id : ℕ
  pub level : AccessLevel
  pub granted_by : ℕ
  pub expires_at : Option ℕ
  pub created_at : ℕ

-- A row of `log_entries`: the columns that an entry has no part in, and the entry, where an empty
-- text stands for NULL (but in `raw`).
pub record LogRow : Type 0 where
  pub upload_id : ℕ
  pub org_id : ℕ
  pub user_id : ℕ
  pub entry : Entry

-- The database's enum `rollup_grain`.
pub data Grain : Type 0 where
  minute hour : Grain

-- The columns by which `entry_rollups` is grouped, beside the grain.
pub record Bucket : Type 0 where
  pub org_id : ℕ
  pub user_id : ℕ
  pub upload_id : ℕ
  pub host : Text
  pub bucket_start : ℕ

-- A row of `entry_rollups`.
pub record Rollup : Type 0 where
  pub bucket : Bucket
  pub grain : Grain
  pub requests : ℕ
  pub bytes_in : ℕ
  pub bytes_out : ℕ
  pub errors : ℕ
  pub cache_hits : ℕ
  pub cache_total : ℕ
  pub latency_p50 : Option ℕ
  pub latency_p95 : Option ℕ
  pub latency_p99 : Option ℕ
  pub latency_count : ℕ

-- A row of `status_rollups`; a reason that is missing is empty.
pub record StatusRollup : Type 0 where
  pub org_id : ℕ
  pub user_id : ℕ
  pub upload_id : ℕ
  pub bucket_start : ℕ
  pub resp_code : ℕ
  pub reason : Text
  pub requests : ℕ
  pub latency_p95 : Option ℕ

pub data AnalysisStatus : Type 0 where
  queued running done failed : AnalysisStatus

pub record Analysis : Type 0 where
  pub id : ℕ
  pub org_id : ℕ
  pub upload_id : ℕ
  pub status : AnalysisStatus
  pub scope : Text
  pub baseline_window_days : Option ℕ
  pub created_at : ℕ

pub record Anomaly : Type 0 where
  pub id : ℕ
  pub analysis_id : ℕ
  pub urgency : ℕ
  pub severity : ℕ
  pub entry_ids : List ℕ

pub record RecoveryCode : Type 0 where
  pub id : ℕ
  pub user_id : ℕ
  pub code_hash : Text
  pub used : Bool

-- A value in the `detail` column of an audit record.
pub data Value : Type 0 where
  text : Text → Value
  number : ℕ → Value
  flag : Bool → Value

pub record AuditRecord : Type 0 where
  pub org_id : ℕ
  pub actor_user_id : Option ℕ
  pub action : String
  pub resource_type : String
  pub resource_id : Option ℕ
  pub detail : List (String × Value)

pub record Db : Type 0 where
  pub organizations : List Organization
  pub users : List UserRow
  pub uploads : List Upload
  pub log_entries : List LogRow
  pub entry_rollups : List Rollup
  pub status_rollups : List StatusRollup
  pub access_grants : List AccessGrant
  pub analyses : List Analysis
  pub anomalies : List Anomaly
  pub recovery_codes : List RecoveryCode
  pub audit_log : List AuditRecord
