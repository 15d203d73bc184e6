-- ===== src/Handlers/Analyses/Redaction.antt =====
-- analyses.go, `getAnalysis`: whoever sees less than the full tier gets no rows.
use log_monitor_tenex.Prelude.{Bool, true, false, [], ◌∷◌}
use log_monitor_tenex.Store.Tables.{Anomaly}
use log_monitor_tenex.Api.{Api}
use log_monitor_tenex.World.{World}

-- A finding that cites no row of the log.
abbrev pub is_bare : Anomaly → Bool
is_bare f = elim f.entry_ids [ [] ↦ true | ◌∷◌ e es ↦ false ]
