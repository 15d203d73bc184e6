-- ===== src/Authz/Levels.antt =====
-- backend/gateway/internal/authz/authz.go: the access tiers.
use mathlib.Core.Option.{Option}
use log_monitor_tenex.Prelude.{ℕ, Text, codes, text_eq, if◌then◌else◌}

pub data Level : Type 0 where
  none summary dashboard full : Level

-- The `iota` values, by which levels are compared.
unfoldable pub rank : Level → ℕ
rank Level.none = 0
rank Level.summary = 1
rank Level.dashboard = 2
rank Level.full = 3

-- `ParseLevel`
unfoldable pub parse_level : Text → Option Level
parse_level s =
    if text_eq s (codes "summary")
    then Option.some Level.summary
    else if text_eq s (codes "dashboard")
    then Option.some Level.dashboard
    else if text_eq s (codes "full")
    then Option.some Level.full
    else Option.none

-- `Level.String`
unfoldable pub level_string : Level → Text
level_string Level.none = codes "none"
level_string Level.summary = codes "summary"
level_string Level.dashboard = codes "dashboard"
level_string Level.full = codes "full"
