-- ===== src/Handlers/Dashboard/Similar.antt =====
-- The search by similarity shows what the list of uploads shows, as the other searches do.
use log_monitor_tenex.Prelude.{
  ℕ, Text, Bool, true, Option, none, some, List, [], ◌∷◌, ◌≡◌, refl, sym, ◌∙◌, ◌≤◌, arith, all,
  take, length,
}
use log_monitor_tenex.Store.Tables.{User, Db}
use log_monitor_tenex.Store.Uploads.{visible}
use log_monitor_tenex.Store.Dashboard.{limit_or}
use log_monitor_tenex.Store.Findings.{Finding, visible_finding}
use log_monitor_tenex.Store.Findings.Similar.{
  Embedding, Near, insert_near, place_near, nearest, finding_near, search_findings_vector,
}
use log_monitor_tenex.World.{World, ok}
use log_monitor_tenex.Handlers.Dashboard.SameRule.{
  all-take, same_rule, select-value, all-same, length-limited,
}

module _ (p : Finding → Bool) where
  all-insert_near :
      (h : Near) (hs : List Near)
      → p h.finding ≡ true
      → all (λ (k : Near). p k.finding) hs ≡ true
      → all (λ (k : Near). p k.finding) (insert_near h hs) ≡ true
  all-insert_near h [] a b = ground arith
  all-insert_near h (k ∷ ks) a b = ground (arith, all-insert_near h ks)

  all-place_near :
      (n : ℕ) (o : Option Finding) (hs : List Near)
      → all (λ (k : Near). p k.finding) hs ≡ true
      → all (λ (k : Near). p k.finding) (place_near p n o hs) ≡ true
  all-place_near n none hs h = h
  all-place_near n (some x) hs h =
      ground (arith, all-insert_near (record { finding = x; distance = n }) hs)

  all-nearest :
      (distance : Text → ℕ) (d : Db) (es : List Embedding)
      → all (λ (k : Near). p k.finding) (nearest p distance d es) ≡ true
  all-nearest distance d [] = refl
  all-nearest distance d (e ∷ es) =
      all-place_near (distance e.embedding) (finding_near d e.anomaly_id) (nearest p distance d es)
        (all-nearest distance d es)

-- Every hit is one of an upload that the caller sees in the list of uploads, and there are a hundred
-- at most.
near_visible :
    (distance : Text → Text → ℕ) (es : List Embedding) (caller : User) (query : Text) (limit : ℕ)
    (w : World) (hits : List Near)
    → (search_findings_vector distance es caller query limit w).0 ≡ ok hits
    → (all (λ (h : Near). visible caller w.now w.db.access_grants h.finding.upload) hits ≡ true)
      × (length hits ≤ 100)
unfolding search_findings_vector
near_visible distance es caller query limit w hits h =
    let rule = visible_finding caller w.now w.db.access_grants in
    let found = nearest rule (distance query) w.db es in
    rw
      (select-value
        (λ (v : World).
          take (limit_or 20 100 limit)
            (nearest (visible_finding caller v.now v.db.access_grants) (distance query) v.db es))
        w h)
      (
        all-same (λ (k : Near). visible caller w.now w.db.access_grants k.finding.upload)
              (λ (k : Near). rule k.finding) (take (limit_or 20 100 limit) found)
              (λ k. sym (same_rule caller w.now w.db.access_grants k.finding))
            ∙ all-take (λ (k : Near). rule k.finding) (limit_or 20 100 limit) found
                (all-nearest rule (distance query) w.db es),
        length-limited 20 limit found (omega arith),
      )
