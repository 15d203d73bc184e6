-- ===== src/Store/Analyses/Latest.antt =====
-- analyses.go, `LatestAnalysisFor`: nothing of the upload is later than what it gives.
use log_monitor_tenex.Prelude.{
  ℕ, true, none, some, List, [], ◌∷◌, ◌≡◌, refl, ◌∙◌, sym, ap, ◌≤◌, arith, all, ltb, leb,
  Option-cases, Bool-cases, inl, inr,
}
use log_monitor_tenex.Store.Tables.{Analysis}
use log_monitor_tenex.Store.Analyses.{latest, later_of}

none_latest : (rows : List Analysis) → latest rows ≡ none → rows ≡ []
unfolding latest
none_latest [] h = refl
none_latest (r ∷ rows) h = elim (Option-cases (latest rows)) [
  | inl e ↦ absurd (ground arith)
  | inr (b, e) ↦ absurd (ground arith)
]

below_more :
    (m n : ℕ) (rows : List Analysis)
    → m ≤ n
    → all (λ (b : Analysis). leb b.created_at m) rows ≡ true
    → all (λ (b : Analysis). leb b.created_at n) rows ≡ true
below_more m n [] le h = refl
below_more m n (r ∷ rows) le h = ground (arith, below_more m n rows)

-- No row is later than the latest.
latest_lem :
    (rows : List Analysis) {a : Analysis}
    → latest rows ≡ some a
    → all (λ (b : Analysis). leb b.created_at a.created_at) rows ≡ true
unfolding latest
latest_lem [] h = absurd (ground arith)
latest_lem (r ∷ rows) {a} h = elim (Option-cases (latest rows)) [
  | inl e ↦ rw (none_latest rows e) (ground arith)
  | inr (b, e) ↦ earlier b (latest_lem rows {a = b} e) (latest_of b e)
]
  where
    latest_of : (b : Analysis) → latest rows ≡ some b → later_of r (some b) ≡ some a
    latest_of b e = ap (later_of r) (sym e) ∙ h

    earlier :
        (b : Analysis)
        → all (λ (c : Analysis). leb c.created_at b.created_at) rows ≡ true
        → later_of r (some b) ≡ some a
        → all (λ (c : Analysis). leb c.created_at a.created_at) (r ∷ rows) ≡ true
    earlier b below is = elim (Bool-cases (ltb r.created_at b.created_at)) [
      | inl before ↦
          let same : b.created_at ≡ a.created_at = ground arith in
          ground (arith, below_more b.created_at a.created_at rows)
      | inr not_before ↦
          let same : r.created_at ≡ a.created_at = ground arith in
          ground (arith, below_more b.created_at a.created_at rows)
    ]
