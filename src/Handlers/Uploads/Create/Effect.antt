-- ===== src/Handlers/Uploads/Create/Effect.antt =====
-- What `createUpload` answers, and what it leaves in the database.
use log_monitor_tenex.Prelude.{ℕ, Text, not, Option, [], arith}
use log_monitor_tenex.Store.Tables.{Upload, Analysis, Db}
use log_monitor_tenex.Store.Analyses.{create_analysis, fail_analysis}
use log_monitor_tenex.Queue.{publish_analysis}
use log_monitor_tenex.Api.{Api}
use log_monitor_tenex.World.{Result, ok, err, Error, pure, raise, try, or_else, fresh_id, Job}
use log_monitor_tenex.World.Rules.{Reads-fresh_id, Reads-raise, Reads-pure}
use log_monitor_tenex.World.Keeps.{
  Keeps, Keeps-Reads, Keeps-or_else, Keeps-try, Keeps-if, Keeps-bind, Keeps-update,
}
use log_monitor_tenex.Handlers.Analyses.{launch_failed, launch_analysis, settle, job_for}

-- All tables but that of the analyses.
abbrev pub but_analyses : Db → Db
but_analyses d = record d { analyses = [] }

Keeps-create_analysis :
    (org upload : ℕ) (scope : Text) (window : Option ℕ)
    → Keeps but_analyses (create_analysis org upload scope window)
unfolding create_analysis
Keeps-create_analysis org upload scope window =
    Keeps-bind but_analyses fresh_id _ (Keeps-Reads but_analyses fresh_id Reads-fresh_id)
      (λ id. Keeps-update but_analyses _ (λ w a d h. ground (arith, h)))

Keeps-fail_analysis : (id : ℕ) → Keeps but_analyses (fail_analysis id)
unfolding fail_analysis
Keeps-fail_analysis id = Keeps-update but_analyses _ (λ w a d h. ground (arith, h))

Keeps-publish_analysis :
    (api : Api) (base : Job) (entries size : ℕ)
    → Keeps but_analyses (publish_analysis api base entries size)
unfolding publish_analysis
Keeps-publish_analysis api base entries size = record { at = λ w. ground arith }

Keeps-settle : (a : Analysis) (r : Result Error ℕ) → Keeps but_analyses (settle a r)
Keeps-settle a (ok n) = Keeps-Reads but_analyses (pure (a, n)) (Reads-pure (a, n))
Keeps-settle a (err e) =
    Keeps-bind but_analyses (try (fail_analysis a.id)) _
      (Keeps-try but_analyses (fail_analysis a.id) (Keeps-fail_analysis a.id))
      (λ _. Keeps-Reads but_analyses (raise (launch_failed e)) (Reads-raise (launch_failed e)))

pub Keeps-launch_analysis :
    (api : Api) (up : Upload) (scope : Text) (window : Option ℕ) (entries : ℕ)
    → Keeps but_analyses (launch_analysis api up scope window entries)
unfolding launch_analysis
Keeps-launch_analysis api up scope window entries =
    Keeps-if but_analyses (not api.has_queue) _ _ (Keeps-Reads but_analyses _ (Reads-raise _)) (
      Keeps-bind but_analyses (or_else launch_failed (create_analysis up.org_id up.id scope window))
        _
        (Keeps-or_else but_analyses launch_failed (create_analysis up.org_id up.id scope window)
          (Keeps-create_analysis up.org_id up.id scope window))
        (λ a.
          Keeps-bind but_analyses
            (try (publish_analysis api (job_for a up scope window) entries api.shard_size)) _
            (Keeps-try but_analyses
              (publish_analysis api (job_for a up scope window) entries api.shard_size)
              (Keeps-publish_analysis api (job_for a up scope window) entries api.shard_size))
            (λ r. Keeps-settle a r)))
