-- ===== src/Startup/Migrations.antt =====
-- backend/gateway/internal/migrations/migrations.go: `Up`, with what golang-migrate and the database
-- answer as arguments.
use log_monitor_tenex.Prelude.{ℕ, ◌-◌, Bool, not, leb, if◌then◌else◌}
use log_monitor_tenex.Config.{ℤ, pos, negsuc}

-- What `Version` answers: a version with the dirty flag, that there is none yet, or an error.
pub data Version : Type 0 where
  at : ℕ → Bool → Version
  nil_version broken : Version

-- What the library's `Up` answers.
pub data UpAnswer : Type 0 where
  applied no_change broke_off : UpAnswer

-- The answers in turn.
pub record Answers : Type 0 where
  pub source : Bool
  pub ping : Bool
  pub driver : Bool
  pub instance_made : Bool
  pub before : Version
  pub up : UpAnswer
  pub after : Version

pub data MigrationError : Type 0 where
  no_source not_connected no_driver no_instance no_version not_applied : MigrationError
  dirty_schema : ℕ → MigrationError

pub data Migrated : Type 0 where
  migrated : ℤ → Migrated
  not_migrated : MigrationError → Migrated

-- A difference of versions.
abbrev pub minus : ℕ → ℕ → ℤ
minus a b = if leb b a then pos (a - b) else negsuc (b - a - 1)

abbrev after_up : ℕ → Version → Migrated
after_up from (at n dirty) =
    if dirty then not_migrated (dirty_schema n) else migrated (minus n from)
after_up from nil_version = not_migrated no_version
after_up from broken = not_migrated no_version

abbrev run_up : Answers → ℕ → Migrated
run_up a from = elim a.up [
  | applied ↦ after_up from a.after
  | no_change ↦ after_up from a.after
  | broke_off ↦ not_migrated not_applied
]

abbrev from_version : Answers → Version → Migrated
from_version a (at n dirty) = run_up a n
from_version a nil_version = run_up a 0
from_version a broken = not_migrated no_version

-- `Up`
unfoldable pub up : Answers → Migrated
up a =
    if not a.source
    then not_migrated no_source
    else if not a.ping
    then not_migrated not_connected
    else if not a.driver
    then not_migrated no_driver
    else if not a.instance_made
    then not_migrated no_instance
    else from_version a a.before
