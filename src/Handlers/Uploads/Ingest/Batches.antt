-- ===== src/Handlers/Uploads/Ingest/Batches.antt =====
-- Where the batches of an upload are cut makes no difference to the rows that are written.
use mathlib.Core.Path.{subst}
use mathlib.Core.List.{append_assoc, append-nil}
use log_monitor_tenex.Prelude.{
  ℕ, Option, none, some, List, [], ◌∷◌, ◌++◌, ◌≡◌, refl, sym, ap, ◌∙◌, ◌+◌, arith, length,
  length-append, map, leb, Bool-cases, Option-cases, ◌⊎◌, inl, inr,
}
use log_monitor_tenex.Parser.{Entry, ReadError}
use log_monitor_tenex.Parser.Zscaler.Values.{Formats}
use log_monitor_tenex.Parser.Runs.{emit_all, emit_all-keeps, emit_all-went_on, emit_all-failed}
use log_monitor_tenex.Store.Tables.{Db, LogRow}
use log_monitor_tenex.Store.Ingest.{
  IngestBatch, copy_entries, ensure_partitions, row_of, with_rows, statement,
}
use log_monitor_tenex.World.{World, Result, ok, err, Error, pure, ◌>>=◌}
use log_monitor_tenex.World.Rules.{bind-ok}
use log_monitor_tenex.Handlers.Uploads.Ingest.{
  Ingesting, span, flush_rows, flush, flushed, take_entry,
}

map-append {ℓ k} :
    {A : Type ℓ} {B : Type k} (f : A → B) (xs ys : List A) → map f (xs ++ ys) ≡ map f xs ++ map f ys
map-append {B = B} f [] ys = refl
map-append {B = B} f (x ∷ xs) ys = ap (λ (zs : List B). f x ∷ zs) (map-append f xs ys)

with_rows-twice :
    (xs ys : List LogRow) (d : Db) → with_rows ys (with_rows xs d) ≡ with_rows (xs ++ ys) d
with_rows-twice xs ys d =
    ap (λ (l : List LogRow). record d { log_entries = l }) (append_assoc d.log_entries xs ys)

pub with_rows-none : (d : Db) → with_rows [] d ≡ d
with_rows-none d = ap (λ (l : List LogRow). record d { log_entries = l }) (append-nil d.log_entries)

pub List-cases {ℓ} :
    {A : Type ℓ} (xs : List A) → (xs ≡ []) ⊎ ((x : A) × (ys : List A) × (xs ≡ x ∷ ys))
List-cases [] = inl refl
List-cases (x ∷ xs) = inr (x, xs, refl)

module _ (formats : Formats) (b : IngestBatch) where
  -- The database with the rows that are copied and those that are pending.
  abbrev pub stored : Ingesting → Db
  stored s = with_rows (map (row_of formats b) s.pending) s.tx

  abbrev pub seen : Ingesting → ℕ
  seen s = s.copied + length s.pending

  copy_entries_lem :
      (es : List Entry) (tx : Db) (w : World) {n : ℕ} {tx' : Db}
      → (copy_entries formats b es tx w).0 ≡ ok (n, tx')
      → (n ≡ length es) × (tx' ≡ with_rows (map (row_of formats b) es) tx)
  unfolding copy_entries statement ◌>>=◌ pure
  copy_entries_lem [] tx w h = (cc h, cc (h, with_rows-none tx))
  copy_entries_lem (e ∷ es) tx w h = (ground arith, ground arith)

  ensure_partitions_lem :
      (from to : Option ℕ) (tx : Db) (w : World) {r : Unit {0} × Db}
      → (ensure_partitions from to tx w).0 ≡ ok r
      → r.1 ≡ tx
  unfolding ensure_partitions statement ◌>>=◌ pure
  ensure_partitions_lem none to tx w h = cc
  ensure_partitions_lem (some from) none tx w h = cc
  ensure_partitions_lem (some from) (some to) tx w h = ground arith

  flush_rows_lem :
      (s : Ingesting) (w : World) {n : ℕ} {tx : Db}
      → (flush_rows formats b s w).0 ≡ ok (n, tx)
      → (n ≡ length s.pending) × (tx ≡ stored s)
  unfolding flush_rows
  flush_rows_lem s w h =
      let (c, e, q) =
        bind-ok (ensure_partitions s.min_ts s.max_ts s.tx)
          (λ (r : Unit {0} × Db). copy_entries formats b s.pending r.1) w h in
      let same = ensure_partitions_lem s.min_ts s.max_ts s.tx w e in
      let (counted, stored_now) =
        copy_entries_lem s.pending c.1 (ensure_partitions s.min_ts s.max_ts s.tx w).1
          (sym (ap (λ (r : Result Error (ℕ × Db) × World). r.0) q) ∙ h) in
      (counted, stored_now ∙ ap (with_rows (map (row_of formats b) s.pending)) same)

  flush_rows-db : (s : Ingesting) (w : World) → (flush_rows formats b s w).1.db ≡ w.db
  unfolding flush_rows ensure_partitions copy_entries statement ◌>>=◌ pure
  flush_rows-db s w = ground arith

  -- The pending rows are in the transaction, and nothing else changed.
  abbrev Kept : Ingesting → Ingesting → Type 0
  Kept s t =
      (t.pending ≡ []) × (stored t ≡ stored s) × (seen t ≡ seen s) × (t.world.db ≡ s.world.db)

  flushed_lem :
      (s : Ingesting) (r : Result Error (ℕ × Db)) (w : World)
      → w.db ≡ s.world.db
      → ((n : ℕ) (tx : Db) → r ≡ ok (n, tx) → (n ≡ length s.pending) × (tx ≡ stored s))
      → (flushed s (r, w)).1 ≡ none
      → Kept s (flushed s (r, w)).0
  flushed_lem s (ok (n, tx)) w d h e =
      (refl, with_rows-none tx ∙ (h n tx refl).1, omega (arith, (h n tx refl).0), d)
  flushed_lem s (err x) w d h e = cc

  pub flush-empty : (s : Ingesting) → s.pending ≡ [] → flush formats b s ≡ (s, none)
  unfolding flush
  flush-empty s e = ground (arith, e)

  pub flush-run :
      (s : Ingesting) (x : Entry) (xs : List Entry)
      → s.pending ≡ x ∷ xs
      → flush formats b s ≡ flushed s (flush_rows formats b s s.world)
  unfolding flush
  flush-run s x xs e = ground (arith, e)

  abbrev KeptIfFine : Ingesting → Ingesting × Option ReadError → Type 0
  KeptIfFine s r = r.1 ≡ none → Kept s r.0

  pub flush_lem : (s : Ingesting) → KeptIfFine s (flush formats b s)
  flush_lem s = elim (List-cases s.pending) [
    | inl e ↦ subst (KeptIfFine s) (sym (flush-empty s e)) (λ _. (e, refl, refl, refl))
    | inr (x, xs, e) ↦ subst (KeptIfFine s) (sym (flush-run s x xs e)) (
        flushed_lem s (flush_rows formats b s s.world).0 (flush_rows formats b s s.world).1
          (flush_rows-db s s.world) (λ n tx q. flush_rows_lem s s.world q))
  ]

  -- A failed flush leaves the world's database alone, too.
  flushed-db :
      (s : Ingesting) (r : Result Error (ℕ × Db)) (w : World)
      → w.db ≡ s.world.db
      → (flushed s (r, w)).0.world.db ≡ s.world.db
  flushed-db s (ok (n, tx)) w d = d
  flushed-db s (err x) w d = d

  pub flush-db : (s : Ingesting) → (flush formats b s).0.world.db ≡ s.world.db
  flush-db s = elim (List-cases s.pending) [
    | inl e ↦ ap (λ (r : Ingesting × Option ReadError). r.0.world.db) (flush-empty s e)
    | inr (x, xs, e) ↦
        ap (λ (r : Ingesting × Option ReadError). r.0.world.db) (flush-run s x xs e)
        ∙ flushed-db s (flush_rows formats b s s.world).0 (flush_rows formats b s s.world).1
            (flush_rows-db s s.world)
  ]

  module _ (bound : ℕ) where
    -- Entries taken in: their rows, after those before.
    abbrev pub Taken : Ingesting → List Entry → Ingesting → Type 0
    Taken s es t =
        (stored t ≡ with_rows (map (row_of formats b) (s.pending ++ es)) s.tx)
        × (seen t ≡ seen s + length es)

    pub take_entry-db :
        (e : Entry) (s : Ingesting) → (take_entry formats b bound e s).0.world.db ≡ s.world.db
    unfolding take_entry
    take_entry-db e s = elim (Bool-cases (leb bound (length (span e s).pending))) [
      | inl h ↦ rw h (flush-db (span e s))
      | inr h ↦ rw h refl
    ]

    take_entry_lem :
        (e : Entry) (s : Ingesting)
        → (take_entry formats b bound e s).1 ≡ none
        → Taken s (e ∷ []) (take_entry formats b bound e s).0
    unfolding take_entry
    take_entry_lem e s fine = elim (Bool-cases (leb bound (length (span e s).pending))) [
      | inl h ↦
          let (_, rows, number, _) = flush_lem (span e s) (rw h at fine) in
          rw h (rows, number ∙ omega (arith, length-append s.pending (e ∷ [])))
      | inr h ↦ rw h (refl, omega (arith, length-append s.pending (e ∷ [])))
    ]

    pub emit_all-db :
        (es : List Entry) (s : Ingesting)
        → (emit_all (take_entry formats b bound) es s).0.world.db ≡ s.world.db
    emit_all-db es s =
        emit_all-keeps (take_entry formats b bound) (λ (t : Ingesting). t.world.db ≡ s.world.db)
          (λ e t h. take_entry-db e t ∙ h) es s refl

    -- Entries taken in one after the other.
    Taken-twice :
        (s t u : Ingesting) (es fs : List Entry)
        → Taken s es t
        → Taken t fs u
        → Taken s (es ++ fs) u
    Taken-twice s t u es fs (rows, number) (rows', number') =
        let row = row_of formats b in
        (
          rows'
              ∙ ap (λ (l : List LogRow). with_rows l t.tx) (map-append row t.pending fs)
              ∙ sym (with_rows-twice (map row t.pending) (map row fs) t.tx)
              ∙ ap (with_rows (map row fs)) rows
              ∙ with_rows-twice (map row (s.pending ++ es)) (map row fs) s.tx
              ∙ ap (λ (l : List LogRow). with_rows l s.tx)
                  (sym (map-append row (s.pending ++ es) fs)
                    ∙ ap (map row) (append_assoc s.pending es fs)),
          omega (arith, number, number', length-append es fs),
        )

    abbrev TakenIfFine : Ingesting → List Entry → Ingesting × Option ReadError → Type 0
    TakenIfFine s es r = r.1 ≡ none → Taken s es r.0

    pub emit_all_lem :
        (es : List Entry) (s : Ingesting)
        → TakenIfFine s es (emit_all (take_entry formats b bound) es s)
    unfolding emit_all
    emit_all_lem [] s = λ _. nothing_taken
      where
        nothing_taken : Taken s [] s
        nothing_taken = (
          ap (λ (l : List Entry). with_rows (map (row_of formats b) l) s.tx)
              (sym (append-nil s.pending)),
          omega arith,
        )
    emit_all_lem (e ∷ es) s =
        let emit = take_entry formats b bound in
        elim (Option-cases (emit e s).1) [
          | inl q ↦ subst (TakenIfFine s (e ∷ es)) (sym (emit_all-went_on emit e es s q)) (λ fine.
              Taken-twice s (emit e s).0 (emit_all emit es (emit e s).0).0 (e ∷ []) es
                (take_entry_lem e s q) (emit_all_lem es (emit e s).0 fine))
          | inr (f, q) ↦
              subst (TakenIfFine s (e ∷ es)) (sym (emit_all-failed emit e es s f q)) (λ fine. cc)
        ]
