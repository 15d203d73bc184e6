-- ===== src/Handlers/Mfa/Enrolment.antt =====
-- mfa.go, `enrollMFA` and `activateMFA`: the state of the second factor, and what its change takes.
use log_monitor_tenex.Prelude.{Text, false, some}
use log_monitor_tenex.Store.Tables.{UserRow}
use log_monitor_tenex.Api.{Api}
use log_monitor_tenex.World.{World}

abbrev staged : Text → UserRow → UserRow
staged s r = record r { totp_enabled = false; totp_secret = some s }
