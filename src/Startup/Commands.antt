-- ===== src/Startup/Commands.antt =====
-- backend/gateway/cmd/gateway/main.go, `main`, `runMigrations` and `probe`: the commands of the
-- binary and their exit codes.
use log_monitor_tenex.Prelude.{
  ℕ, Text, codes, Bool, true, false, Option, none, some, ◌==◌, if◌then◌else◌,
}
use log_monitor_tenex.Parser.{is_empty}
use log_monitor_tenex.Config.{Loaded, loaded, refused}
use log_monitor_tenex.Startup.Migrations.{Answers, migrated, not_migrated, up}

-- `probe`: the status that the health endpoint answers, if it answers.
abbrev pub probe_port : Text → Text
probe_port port = if is_empty port then codes "8000" else port

unfoldable pub probe : (Text → Option ℕ) → Text → ℕ
probe ask port = elim (ask (probe_port port)) [
  | none ↦ 1
  | some status ↦ if status == 200 then 0 else 1
]

-- `runMigrations`: whether the migrations were applied, with the answers for the URL of the settings.
unfoldable pub run_migrations : Loaded → (Text → Answers) → Bool
unfolding up
run_migrations (refused e) answers = false
run_migrations (loaded c) answers = elim (up (answers c.database_url)) [
  | migrated n ↦ true
  | not_migrated e ↦ false
]

-- `main`: the exit code for the two flags; `served` is whether `run` ends without an error.
unfoldable pub main : Bool → Bool → ℕ → Bool → Bool → ℕ
main healthcheck migrate probed migrations served =
    if healthcheck
    then probed
    else if migrate
    then (if migrations then 0 else 1)
    else (if served then 0 else 1)
