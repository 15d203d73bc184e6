-- ===== src/Store/Ingest/Agreement.antt =====
-- The rollups agree with the rows that they are derived from.
use log_monitor_tenex.Prelude.{
  ℕ, Bool, true, false, not, Option, none, some, List, [], ◌∷◌, ◌++◌, ◌≡◌, refl, sym, ap, ◌∙◌, ◌+◌,
  ◌&&◌, ◌==◌, arith, length, map, all, any, count_if, keep_if, if◌then◌else◌, Bool-cases, inl, inr,
}
use log_monitor_tenex.Parser.{is_there}
use log_monitor_tenex.Store.Tables.{LogRow, Rollup, Bucket, Grain, Db}
use log_monitor_tenex.Store.Ingest.{with_grain}
use log_monitor_tenex.Store.Ingest.Rollups.{
  Group, add_to_group, group_row, grouped, sum_of, rollup_of, entry_rollups_of, is_error, is_hit,
  upsert, same_bucket, bucket_at, same_grain, one_if, same_key, or_zero, reports_cache,
}

-- A row with a time.
abbrev pub has_time : LogRow → Bool
has_time r = is_there r.entry.ts

sum_of-count {ℓ} :
    {A : Type ℓ} (p : A → Bool) (xs : List A) → sum_of (λ x. one_if (p x)) xs ≡ count_if p xs
sum_of-count p [] = refl
sum_of-count p (x ∷ xs) = ground (arith, sum_of-count p xs)

sum_of-length {ℓ} : {A : Type ℓ} (xs : List A) → sum_of (λ (x : A). 1) xs ≡ length xs
sum_of-length [] = refl
sum_of-length (x ∷ xs) = omega (arith, sum_of-length xs)

module _ (f : LogRow → ℕ) where
  abbrev total : List Group → ℕ
  total gs = sum_of (λ (g : Group). sum_of f g.members) gs

  add_to_group-total :
      (b : Bucket) (r : LogRow) (gs : List Group) → total (add_to_group b r gs) ≡ f r + total gs
  unfolding add_to_group
  add_to_group-total b r [] = omega arith
  add_to_group-total b r (g ∷ gs) = elim (Bool-cases (same_bucket g.bucket b)) [
    | inl e ↦ rw e (omega arith)
    | inr e ↦ rw e (omega (arith, add_to_group-total b r gs))
  ]

  group_row-total :
      (grain : Grain) (r : LogRow) (ts : Option ℕ) (gs : List Group)
      → total (group_row grain r ts gs) ≡ (if is_there ts then f r else 0) + total gs
  unfolding group_row
  group_row-total grain r none gs = omega arith
  group_row-total grain r (some t) gs = add_to_group-total (bucket_at grain r t) r gs

  grouped-total :
      (grain : Grain) (rows : List LogRow)
      → total (grouped grain rows) ≡ sum_of f (keep_if has_time rows)
  unfolding grouped
  grouped-total grain [] = refl
  grouped-total grain (r ∷ rows) =
      ground
        (arith, group_row-total grain r r.entry.ts (grouped grain rows), grouped-total grain rows)

  -- What a column of the rollups adds up to, where it adds up the rows of its group.
  column-total :
      (column : Rollup → ℕ) (grain : Grain) (rows : List LogRow)
      → ((g : Group) → column (rollup_of grain g) ≡ sum_of f g.members)
      → sum_of column (entry_rollups_of grain rows) ≡ sum_of f (keep_if has_time rows)
  unfolding entry_rollups_of
  column-total column grain rows h = mapped (grouped grain rows) ∙ grouped-total grain rows
    where
      mapped : (gs : List Group) → sum_of column (map (rollup_of grain) gs) ≡ total gs
      mapped [] = refl
      mapped (g ∷ gs) = omega (arith, h g, mapped gs)

-- All rollups are of one upload and one grain.
abbrev pub is_of : ℕ → Grain → Rollup → Bool
is_of id grain r = r.bucket.upload_id == id && same_grain r.grain grain

same_grain_refl : (g : Grain) → same_grain g g ≡ true
same_grain_refl Grain.minute = refl
same_grain_refl Grain.hour = refl

module _ (id : ℕ) (grain : Grain) where
  abbrev in_upload : Group → Bool
  in_upload g = g.bucket.upload_id == id

  group_row-of :
      (r : LogRow) (ts : Option ℕ) (gs : List Group)
      → (r.upload_id == id) ≡ true
      → all in_upload gs ≡ true
      → all in_upload (group_row grain r ts gs) ≡ true
  unfolding group_row
  group_row-of r none gs h k = k
  group_row-of r (some t) gs h k = added gs k
    where
      added :
          (gs : List Group)
          → all in_upload gs ≡ true
          → all in_upload (add_to_group (bucket_at grain r t) r gs) ≡ true
      added [] k = unfold add_to_group in ground arith
      added (g ∷ gs) k = unfold add_to_group in ground (arith, added gs)

  grouped-of :
      (rows : List LogRow)
      → all in_upload (grouped grain (keep_if (λ r. r.upload_id == id) rows)) ≡ true
  unfolding grouped
  grouped-of [] = refl
  grouped-of (r ∷ rows) = elim (Bool-cases (r.upload_id == id)) [
    | inl e ↦ rw e (
        group_row-of r r.entry.ts (grouped grain (keep_if (λ q. q.upload_id == id) rows)) e
          (grouped-of rows))
    | inr e ↦ rw e (grouped-of rows)
  ]

  rollups-of :
      (gs : List Group)
      → all in_upload gs ≡ true
      → all (is_of id grain) (map (rollup_of grain) gs) ≡ true
  unfolding rollup_of
  rollups-of [] h = refl
  rollups-of (g ∷ gs) h = ground (arith, rollups-of gs, same_grain_refl grain)

module _ {ℓ} {A : Type ℓ} (p : A → Bool) where
  keep_if-append : (xs ys : List A) → keep_if p (xs ++ ys) ≡ keep_if p xs ++ keep_if p ys
  keep_if-append [] ys = refl
  keep_if-append (x ∷ xs) ys = ground (arith, keep_if-append xs ys)

  keep_if-all : (xs : List A) → all p xs ≡ true → keep_if p xs ≡ xs
  keep_if-all [] h = refl
  keep_if-all (x ∷ xs) h = ground (arith, keep_if-all xs)

  keep_if-none : (q : A → Bool) (xs : List A) → any p xs ≡ false → keep_if p (keep_if q xs) ≡ []
  keep_if-none q [] h = refl
  keep_if-none q (x ∷ xs) h = ground (arith, keep_if-none q xs)

-- The rollups of an upload at a grain, and the rows that should be in them.
abbrev pub rollups_at : ℕ → Grain → Db → List Rollup
rollups_at id grain d = keep_if (is_of id grain) d.entry_rollups

abbrev pub rows_of : ℕ → Db → List LogRow
rows_of id d = keep_if (λ r. r.upload_id == id) d.log_entries

abbrev pub timed_rows : ℕ → Db → List LogRow
timed_rows id d = keep_if has_time (rows_of id d)

rollups_at-with_grain :
    (id : ℕ) (grain : Grain) (d : Db)
    → any (is_of id grain) d.entry_rollups ≡ false
    → rollups_at id grain (with_grain id grain d) ≡ entry_rollups_of grain (rows_of id d)
unfolding with_grain upsert entry_rollups_of
rollups_at-with_grain id grain d h =
    let new = entry_rollups_of grain (rows_of id d) in
    keep_if-append (is_of id grain) (keep_if (λ r. not (any (same_key r) new)) d.entry_rollups) new
    ∙ ap (λ (l : List Rollup). l ++ keep_if (is_of id grain) new)
        (keep_if-none (is_of id grain) (λ r. not (any (same_key r) new)) d.entry_rollups h)
    ∙ keep_if-all (is_of id grain) new
        (rollups-of id grain (grouped grain (rows_of id d)) (grouped-of id grain d.log_entries))

-- The rollups that the loop of `BuildRollups` derives for an upload that had none at the grain: over
-- its buckets, the requests add up to the number of its rows that have a time, and the errors, the
-- bytes in both directions and the cache's hits and answers to those of the same rows.
pub rollups_agree :
    (id : ℕ) (grain : Grain) (d : Db)
    → any (is_of id grain) d.entry_rollups ≡ false
    → (sum_of (λ r. r.requests) (rollups_at id grain (with_grain id grain d))
        ≡ length (timed_rows id d))
      × (sum_of (λ r. r.errors) (rollups_at id grain (with_grain id grain d))
          ≡ count_if is_error (timed_rows id d))
      × (sum_of (λ r. r.bytes_in) (rollups_at id grain (with_grain id grain d))
          ≡ sum_of (λ r. or_zero r.entry.resp_bytes) (timed_rows id d))
      × (sum_of (λ r. r.bytes_out) (rollups_at id grain (with_grain id grain d))
          ≡ sum_of (λ r. or_zero r.entry.req_bytes) (timed_rows id d))
      × (sum_of (λ r. r.cache_hits) (rollups_at id grain (with_grain id grain d))
          ≡ count_if is_hit (timed_rows id d))
      × (sum_of (λ r. r.cache_total) (rollups_at id grain (with_grain id grain d))
          ≡ count_if reports_cache (timed_rows id d))
unfolding rollup_of
rollups_agree id grain d h =
    let rows = rows_of id d in
    rw (rollups_at-with_grain id grain d h) (
      column-total (λ r. 1) (λ r. r.requests) grain rows (λ g. sym (sum_of-length g.members))
          ∙ sum_of-length (timed_rows id d),
      column-total (λ r. one_if (is_error r)) (λ r. r.errors) grain rows
            (λ g. sym (sum_of-count is_error g.members))
          ∙ sum_of-count is_error (timed_rows id d),
      column-total (λ r. or_zero r.entry.resp_bytes) (λ r. r.bytes_in) grain rows (λ g. refl),
      column-total (λ r. or_zero r.entry.req_bytes) (λ r. r.bytes_out) grain rows (λ g. refl),
      column-total (λ r. one_if (is_hit r)) (λ r. r.cache_hits) grain rows
            (λ g. sym (sum_of-count is_hit g.members))
          ∙ sum_of-count is_hit (timed_rows id d),
      column-total (λ r. one_if (reports_cache r)) (λ r. r.cache_total) grain rows
            (λ g. sym (sum_of-count reports_cache g.members))
          ∙ sum_of-count reports_cache (timed_rows id d),
    )
