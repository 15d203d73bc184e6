-- ===== src/Handlers/Analyses/Launch.antt =====
-- analyses.go, `launchAnalysis`: a row that says queued has jobs behind it.
use log_monitor_tenex.Prelude.{
  ℕ, zero, suc, ◌≤◌, Text, true, Option, none, some, [], ◌∷◌, ◌++◌, ◌==◌, ◌≡◌, ◌⊎◌, arith,
  update_if,
}
use mathlib.Core.List.{reverse}
use log_monitor_tenex.Store.Tables.{Upload, Analysis, AnalysisStatus}
use log_monitor_tenex.Store.Analyses.{create_analysis, fail_analysis, scope_fits, new_analysis}
use log_monitor_tenex.Queue.{publish_analysis, fan_out, effective_size, shard_count}
use log_monitor_tenex.Api.{Api}
use log_monitor_tenex.Http.{serve}
use log_monitor_tenex.World.{World, ok, err, called, fails}
use log_monitor_tenex.Handlers.Analyses.{launch_analysis, LaunchError, job_for, normalise_scope}

-- Whatever the request says of scope and window, what is stored fits the constraint of the
-- database, and the window is between 1 and 365 days.
pub normalise_scope_fits :
    (scope : Text) (window : Option ℕ) {s : Text} {d : Option ℕ}
    → normalise_scope scope window ≡ some (s, d)
    → (scope_fits s d ≡ true) × ((n : ℕ) → d ≡ some n → (1 ≤ n) × (n ≤ 365))
unfolding normalise_scope scope_fits
normalise_scope_fits scope none {s} {d} h = (ground arith, λ n e. ground arith)
normalise_scope_fits scope (some zero) {s} {d} h = (ground arith, λ n e. ground arith)
normalise_scope_fits scope (some (suc m)) {s} {d} h = (ground arith, λ n e. ground arith)

module _ (api : Api) (up : Upload) (scope : Text) (window : Option ℕ) (entries : ℕ)
    (w : World) where
  -- A launch that succeeds has added one analysis, of the upload and queued, and put the jobs of
  -- its shards in front of the queue.
  pub launch_queues :
      {a : Analysis} {n : ℕ}
      → (launch_analysis api up scope window entries w).0 ≡ ok (a, n)
      → ((launch_analysis api up scope window entries w).1.db.analyses ≡ w.db.analyses ++ a ∷ [])
        × (a.upload_id ≡ up.id)
        × (a.status ≡ AnalysisStatus.queued)
        × (n ≡ shard_count entries (effective_size api.shard_size))
        × ((launch_analysis api up scope window entries w).1.jobs
            ≡ reverse (fan_out (job_for a up scope window) entries (effective_size api.shard_size))
              ++ w.jobs)
  unfolding launch_analysis create_analysis publish_analysis serve
  launch_queues {a} {n} h = (ground arith, ground arith, ground arith, ground arith, ground arith)

  -- A launch that fails has queued no job. Its row was never there, or it says failed; or the
  -- database refused to mark it too, and only then it still says queued.
  pub launch_fails :
      {e : LaunchError}
      → (launch_analysis api up scope window entries w).0 ≡ err e
      → ((launch_analysis api up scope window entries w).1.jobs ≡ w.jobs)
        × (((launch_analysis api up scope window entries w).1.db ≡ w.db)
            ⊎ ((launch_analysis api up scope window entries w).1.db.analyses
                ≡ update_if
                    (λ a. a.id == w.fresh)
                    (λ a. record a { status = AnalysisStatus.failed })
                    (w.db.analyses ++ new_analysis w.fresh up.org_id up.id scope window w.now ∷ []))
            ⊎ ((fails (called (called w)) ≡ true)
                × ((launch_analysis api up scope window entries w).1.db.analyses
                    ≡ w.db.analyses
                      ++ new_analysis w.fresh up.org_id up.id scope window w.now ∷ [])))
  unfolding launch_analysis create_analysis publish_analysis fail_analysis serve
  launch_fails {e} h = (ground arith, ground arith)
