-- ===== src/Store/Analyses/Timings.antt =====
-- analyses.go, `ProcessingStats`: how long the stages of the analyses took. The table is written by
-- the worker alone, so it is an argument; a duration is a number that grows with it.
use log_monitor_tenex.Prelude.{
  ℕ, Text, text_eq, Bool, true, false, Option, List, [], ◌∷◌, map, length, keep_if, ltb, ◌==◌, ◌||◌,
  ◌&&◌, some, if◌then◌else◌,
}
use log_monitor_tenex.Store.Ingest.Rollups.{percentile_disc}
use log_monitor_tenex.Store.Dashboard.{Scope, in_scope}
use log_monitor_tenex.World.{Exec, ok, Error, select}

-- The columns of `analysis_timings` that the query reads.
pub record Timing : Type 0 where
  pub org_id : ℕ
  pub user_id : ℕ
  pub stage : Text
  pub duration_ms : ℕ
  pub created_at : ℕ

pub record StageStats : Type 0 where
  pub stage : Text
  pub count : ℕ
  pub p50_ms : Option ℕ
  pub p95_ms : Option ℕ
  pub p99_ms : Option ℕ

-- The order of texts, that of their bytes: a stage is a word of small letters.
unfoldable pub text_before : Text → Text → Bool
text_before [] [] = false
text_before [] (d ∷ t) = true
text_before (c ∷ s) [] = false
text_before (c ∷ s) (d ∷ t) = let rest = text_before s t in ltb c d || (c == d && rest)

-- Texts in order, each once.
abbrev insert_stage : Text → List Text → List Text
insert_stage s [] = s ∷ []
insert_stage s (t ∷ ts) =
    let later = insert_stage s ts in
    if text_eq s t then t ∷ ts else if text_before s t then s ∷ t ∷ ts else t ∷ later

abbrev stages_in_order : List Text → List Text
stages_in_order [] = []
stages_in_order (s ∷ ss) = insert_stage s (stages_in_order ss)

abbrev stage_stats : List Timing → Text → StageStats
stage_stats rows stage =
    let ms =
      map (λ (r : Timing). r.duration_ms) (keep_if (λ (r : Timing). text_eq r.stage stage) rows) in
    record {
      stage = stage;
      count = length ms;
      p50_ms = percentile_disc 50 ms;
      p95_ms = percentile_disc 95 ms;
      p99_ms = percentile_disc 99 ms;
    }

abbrev timing_in : Scope → Timing → Bool
timing_in sc r = in_scope sc r.org_id r.user_id (some r.created_at)

-- `ProcessingStats`
unfoldable pub processing_stats : List Timing → Scope → Exec Error (List StageStats)
unfolding in_scope percentile_disc text_before
processing_stats timings sc = select λ w.
    let rows = keep_if (timing_in sc) timings in
    ok (map (stage_stats rows) (stages_in_order (map (λ (r : Timing). r.stage) rows)))
