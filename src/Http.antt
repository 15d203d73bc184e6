-- ===== src/Http.antt =====
-- backend/gateway/internal/httpx/httpx.go: responses, and handlers as actions that end in one.
--
-- A handler that answers early raises its response; `serve` gives the answer either way. A body
-- that `Decode` refuses is `none` where the handler reads it.
pub mod Decode
pub mod Rules
use log_monitor_tenex.Prelude.{ℕ, String, Text, Bool, true, false, Option, none, some, List, []}
use log_monitor_tenex.Store.Tables.{
  User, Organization, Upload, AccessGrant, Analysis, Anomaly, AuditRecord,
}
use log_monitor_tenex.Store.Mfa.{MfaState}
use log_monitor_tenex.Store.Dashboard.{Scope, Summary, TopRow}
use log_monitor_tenex.Store.Series.{SeriesPoint, StatusBreakdown}
use log_monitor_tenex.Store.Findings.{Finding, FindingCount, Hit}
use log_monitor_tenex.Authz.Levels.{Level}
use log_monitor_tenex.World.{World, Exec, Result, ok, err, Error, raise, pure, or_else, ◌>>=◌}

-- A `Set-Cookie` header: the name, the value, and `MaxAge` (`none` deletes the cookie).
pub record Cookie : Type 0 where
  pub name : String
  pub value : Text
  pub max_age : Option ℕ

-- The figures of `processMetrics`, times and sizes in whole seconds and megabytes.
pub record ProcessMetrics : Type 0 where
  pub uptime_seconds : ℕ
  pub collected_at : ℕ
  pub goroutines : ℕ
  pub memory_mb : ℕ
  pub heap_mb : ℕ
  pub gc_cycles : ℕ

-- The JSON values that the handlers encode.
pub data Body : Type 0 where
  no_content : Body
  detail : String → Body
  health_body : Body
  metrics_body : ProcessMetrics → Body
  user_body : User → Body
  users_body : List User → Body
  profile_body : User → Option Organization → Option MfaState → Body
  login_body : User → Bool → Bool → Body
  mfa_required : Body
  enrolment_body : Text → Text → Body
  recovery_codes_body : List Text → Body
  policy_body : Bool → Body
  grant_body : AccessGrant → Body
  grants_body : List AccessGrant → Body
  uploads_body : List (Upload × Option Analysis) → Body
  started_body : Analysis → Text → ℕ → ℕ → Body
  findings_body : Analysis → List Anomaly → Level → Body
  created_body : Upload → Text → Option (Analysis × ℕ) → Body
  over_limit_body : ℕ → Body
  summary_body : Summary → List FindingCount → String → ℕ → ℕ → Body
  top_body : List TopRow → Text → Body
  series_body : List SeriesPoint → String → Body
  codes_body : List StatusBreakdown → Body
  audit_body : List (AuditRecord × Option Text) → Body
  plan_body : List Finding → Body
  hits_body : Text → List Hit → Bool → Body

pub record Response : Type 0 where
  pub status : ℕ
  pub body : Body
  pub cookies : List Cookie
  pub retry_after : Option ℕ

abbrev pub Handler : Type 0
Handler = Exec Response Response

-- `httpx.JSON`
abbrev pub json : ℕ → Body → Response
json status body = record { status = status; body = body; cookies = []; retry_after = none }

-- `httpx.Fail`
abbrev pub failure : ℕ → String → Response
failure status message = json status (detail message)

unfoldable pub fail_if : Bool → ℕ → String → Exec Response (Unit {0})
fail_if true status message = raise (failure status message)
fail_if false status message = pure tt

-- A missing value is answered with a failure.
unfoldable pub or_fail : {A : Type 0} → Option A → ℕ → String → Exec Response A
or_fail none status message = raise (failure status message)
or_fail (some a) status message = pure a

-- An error of the store, whatever it is, is answered with one failure.
unfoldable pub or_fail_with : {A : Type 0} → Exec Error A → ℕ → String → Exec Response A
or_fail_with m status message = or_else (λ _. failure status message) m

abbrev pub answer : Result Response Response → Response
answer (ok r) = r
answer (err r) = r

unfoldable pub serve : Handler → World → Response × World
unfolding ◌>>=◌ fail_if or_fail or_fail_with
serve h w = let (r, w') = h w in (answer r, w')
