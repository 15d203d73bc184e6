-- ===== src/Handlers/Uploads/Ingest/Oversize.antt =====
-- A part whose reading fails behind the header row, as `capReader` makes it fail for ever.
use mathlib.Core.Path.{subst}
use log_monitor_tenex.World.Rules.{bind-run}
use log_monitor_tenex.Handlers.Uploads.Ingest.Batches.{List-cases, flush-empty, flush-run}
use log_monitor_tenex.Prelude.{
  ℕ, suc, Text, true, Option, none, some, List, [], ◌∷◌, ◌≡◌, refl, sym, ap, ◌∙◌, ◌<◌, arith, map,
  length, leb, Bool-cases, inl, inr,
}
use log_monitor_tenex.Parser.{Entry, ReadError, Stream, Answer}
use log_monitor_tenex.Parser.Zscaler.Header.{Field, sniff}
use log_monitor_tenex.Parser.Zscaler.Values.{Formats}
use log_monitor_tenex.Parser.Runs.{Begins, parse-goes_on}
use log_monitor_tenex.Store.Tables.{Db, User}
use log_monitor_tenex.Store.Ingest.{
  IngestBatch, copy_entries, ensure_partitions, statement, with_rows, row_of, begin,
}
use log_monitor_tenex.Api.{Api}
use log_monitor_tenex.World.{World, Exec, Result, ok, err, Error, select, fails, called, ◌>>=◌}
use log_monitor_tenex.Handlers.Uploads.Ingest.{
  Ingesting, CapReader, over_limit, read_capped, span, flush, flushed, flush_rows, take_entry,
  opened, ingest_into, ingest, copy_batch, with_tx, when_ended, after_parse,
}
use log_monitor_tenex.Handlers.Uploads.Ingest.Whole.{ingest-opens, batch_of, key_of}

-- Past its limit a `capReader` answers with the error, and stays past it, also at the end.
read_capped-stays :
    (n : ℕ) (c : CapReader)
    → c.limit < c.read
    → ((read_capped n c).0.1 ≡ over_limit) × ((read_capped n c).1.limit < (read_capped n c).1.read)
unfolding read_capped
read_capped-stays n c h = ground arith

module _ (formats : Formats) (b : IngestBatch) (bound : ℕ) where
  -- The services work.
  abbrev Working : Ingesting → Type 0
  Working s = s.world.faults ≡ []

  abbrev Succeeds : {A : Type 0} → Exec Error A → World → Type 0
  Succeeds {A} m w = (a : A) × ((m w).0 ≡ ok a) × ((m w).1.faults ≡ [])

  statement-works :
      {A : Type 0} (f : Db → A × Db) (tx : Db) (w : World)
      → w.faults ≡ []
      → Succeeds (statement f tx) w
  unfolding statement fails called
  statement-works f tx w h = (f tx, ground (arith, h), ground (arith, h))

  ensure_partitions-works :
      (from to : Option ℕ) (tx : Db) (w : World)
      → w.faults ≡ []
      → Succeeds (ensure_partitions from to tx) w
  unfolding ensure_partitions ◌>>=◌
  ensure_partitions-works none to tx w h = ((tt, tx), refl, h)
  ensure_partitions-works (some from) none tx w h = ((tt, tx), refl, h)
  ensure_partitions-works (some from) (some to) tx w h = statement-works (λ d. (tt, d)) tx w h

  copy_entries-works :
      (es : List Entry) (tx : Db) (w : World)
      → w.faults ≡ []
      → Succeeds (copy_entries formats b es tx) w
  unfolding copy_entries ◌>>=◌
  copy_entries-works [] tx w h = ((0, tx), refl, h)
  copy_entries-works (e ∷ es) tx w h =
      statement-works (λ d. (length (e ∷ es), with_rows (map (row_of formats b) (e ∷ es)) d)) tx w h

  flush_rows-works : (s : Ingesting) → Working s → Succeeds (flush_rows formats b s) s.world
  unfolding flush_rows
  flush_rows-works s h =
      let (r, e, left) = ensure_partitions-works s.min_ts s.max_ts s.tx s.world h in
      let (q, e', left') =
        copy_entries-works s.pending r.1 (ensure_partitions s.min_ts s.max_ts s.tx s.world).1
          left in
      let run =
        bind-run (ensure_partitions s.min_ts s.max_ts s.tx)
          (λ (t : Unit {0} × Db). copy_entries formats b s.pending t.1) s.world e in
      (
        q,
        ap (λ (t : Result Error (ℕ × Db) × World). t.0) run ∙ e',
        ap (λ (t : Result Error (ℕ × Db) × World). t.1.faults) run ∙ left',
      )

  abbrev FineAndWorking : Ingesting × Option ReadError → Type 0
  FineAndWorking r = (r.1 ≡ none) × Working r.0

  flushed-works :
      (s : Ingesting) (r : Result Error (ℕ × Db)) (w : World) {q : ℕ × Db}
      → r ≡ ok q
      → w.faults ≡ []
      → FineAndWorking (flushed s (r, w))
  flushed-works s (ok (n, tx)) w e h = (refl, h)
  flushed-works s (err x) w e h = cc

  flush-works :
      (s : Ingesting) → Working s → ((flush formats b s).1 ≡ none) × Working (flush formats b s).0
  flush-works s h = elim (List-cases s.pending) [
    | inl e ↦ subst FineAndWorking (sym (flush-empty formats b s e)) (refl, h)
    | inr (x, xs, e) ↦
        let (q, went, left) = flush_rows-works s h in
        subst FineAndWorking (sym (flush-run formats b s x xs e)) (
          flushed-works s (flush_rows formats b s s.world).0 (flush_rows formats b s s.world).1 went
            left)
  ]

  take_entry-works :
      (e : Entry) (s : Ingesting)
      → Working s
      → ((take_entry formats b bound e s).1 ≡ none) × Working (take_entry formats b bound e s).0
  unfolding take_entry
  take_entry-works e s h = elim (Bool-cases (leb bound (length (span e s).pending))) [
    | inl q ↦ rw q (flush-works (span e s) h)
    | inr q ↦ rw q (refl, h)
  ]

begin-works : (w : World) → w.faults ≡ [] → ((begin w).0 ≡ ok w.db) × ((begin w).1.faults ≡ [])
unfolding begin select fails called
begin-works w h = (ground (arith, h), ground (arith, h))

-- A recognised file with a header whose reading then fails for ever, as `capReader` makes it fail
-- behind its limit: as long as the database works, `ingest` returns on no amount of fuel. It answers
-- neither 413 nor anything else.
pub ingest-goes_on :
    (api : Api) (formats : Formats) (fuel comma : ℕ) (order : List Field) (caller : User)
    (filename : Text) (header : List Text) (answers : List Answer) (broken : ReadError)
    (stream : Stream) (w : World)
    → Begins comma header answers (some broken) stream
    → sniff stream.head ≡ true
    → w.faults ≡ []
    → ingest api formats fuel order caller filename stream w ≡ none
ingest-goes_on api formats fuel comma order caller filename header answers broken stream w h known
      working =
    let v : World = record w { fresh = suc w.fresh } in
    let (opened_at, left) = begin-works v working in
    ingest-opens api formats fuel comma order caller filename header answers stream w h.0 known
    ∙ never (begin v).0 (begin v).1 opened_at left
  where
    b : IngestBatch
    b = batch_of api formats fuel comma order caller filename header answers stream w

    key : Text
    key = key_of api formats fuel comma order caller filename header answers stream w

    never :
        (r : Result Error Db) (v : World)
        → r ≡ ok w.db
        → v.faults ≡ []
        → with_tx api formats fuel order
            (ingest_into api formats fuel order b filename key stream)
            (r, v)
          ≡ none
    never (ok tx) v e left = stuck
      where
        stuck : ingest_into api formats fuel order b filename key stream tx v ≡ none
        stuck =
            unfold ingest_into in
            ap (when_ended (after_parse formats b filename key stream)) (
              parse-goes_on formats (take_entry formats b copy_batch) (Working formats b copy_batch)
                (take_entry-works formats b copy_batch) broken fuel comma order header answers
                stream (opened v tx) left h)
    never (err x) v e left = cc
