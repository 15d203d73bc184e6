-- ===== src/Store/Findings/Similar.antt =====
-- backend/gateway/internal/store/search.go, `SearchFindingsVector`: findings by the distance of their
-- embeddings. The table is written by the worker alone, so it is an argument; the cosine distance of
-- the database is a function into numbers that grow with it.
use log_monitor_tenex.Prelude.{
  ℕ, Text, Bool, Option, none, some, List, [], ◌∷◌, take, find?, leb, ◌==◌, if◌then◌else◌,
}
use log_monitor_tenex.Store.Tables.{User, Anomaly, Db}
use log_monitor_tenex.Store.Dashboard.{limit_or}
use log_monitor_tenex.Store.Findings.{Finding, finding_of, visible_finding}
use log_monitor_tenex.World.{Exec, ok, Error, select}

-- The columns of `finding_embeddings` that the query reads.
pub record Embedding : Type 0 where
  pub anomaly_id : Option ℕ
  pub embedding : Text

-- A hit: the finding, and the distance d that its rank 1 - d is made of.
pub record Near : Type 0 where
  pub finding : Finding
  pub distance : ℕ

abbrev pub finding_near : Db → Option ℕ → Option Finding
finding_near d none = none
finding_near d (some id) = elim (find? (λ (f : Anomaly). f.id == id) d.anomalies) [
  | none ↦ none
  | some f ↦ finding_of d f
]

-- Nearest first.
abbrev pub insert_near : Near → List Near → List Near
insert_near h [] = h ∷ []
insert_near h (k ∷ ks) =
    let later = insert_near h ks in if leb h.distance k.distance then h ∷ k ∷ ks else k ∷ later

abbrev pub place_near : (Finding → Bool) → ℕ → Option Finding → List Near → List Near
place_near p n none hits = hits
place_near p n (some x) hits =
    if p x then insert_near (record { finding = x; distance = n }) hits else hits

abbrev pub nearest : (Finding → Bool) → (Text → ℕ) → Db → List Embedding → List Near
nearest p distance d [] = []
nearest p distance d (e ∷ es) =
    place_near p (distance e.embedding) (finding_near d e.anomaly_id) (nearest p distance d es)

-- `SearchFindingsVector`
unfoldable pub search_findings_vector :
    (Text → Text → ℕ) → List Embedding → User → Text → ℕ → Exec Error (List Near)
unfolding visible_finding limit_or
search_findings_vector distance embeddings caller query limit = select λ w. ok (
    take (limit_or 20 100 limit)
      (nearest (visible_finding caller w.now w.db.access_grants) (distance query) w.db embeddings))
