-- ===== src/Handlers/Uploads/Ingest/Stored.antt =====
-- What `ingest` does when `Parse` has returned: it stores the whole of the upload, or nothing.
use mathlib.Core.Path.{subst}
use log_monitor_tenex.Prelude.{
  ℕ, suc, Text, Option, none, some, List, [], ◌≡◌, refl, sym, ap, ◌∙◌, ◌+◌, arith, length, map,
  count_if, Option-cases, inl, inr,
}
use log_monitor_tenex.Parser.{Entry, ReadError, Stream, Stats, is_parsed}
use log_monitor_tenex.Parser.Zscaler.{Parsing}
use log_monitor_tenex.Parser.Zscaler.Values.{Formats}
use log_monitor_tenex.Parser.Runs.{emit_all, outcome}
use log_monitor_tenex.Store.Tables.{Db}
use log_monitor_tenex.Store.Ingest.{IngestBatch, row_of, with_rows, with_upload}
use log_monitor_tenex.World.{World, Result, ok, err}
use log_monitor_tenex.Handlers.Uploads.Ingest.{
  Ingesting, IngestError, IngestResult, new_upload, conclude, after_parse, put_object, flush,
  take_entry, opened, ingest_error,
}
use log_monitor_tenex.Handlers.Uploads.Ingest.Batches.{
  with_rows-none, stored, seen, flush_lem, flush-db, emit_all-db, emit_all_lem,
}
use log_monitor_tenex.Handlers.Uploads.Ingest.Commits.{
  Reads-put_object, rolled_up, Clean-conclude, conclude-ok,
}

module _ (formats : Formats) (b : IngestBatch) (filename key : Text) (stream : Stream) (d : Db)
    (es : List Entry) where
  -- The database is as it was; or it has one row for each entry, the upload, and its rollups.
  abbrev pub WholeOrNothing : Result IngestError IngestResult × World → Type 0
  WholeOrNothing (err e, v) = v.db ≡ d
  WholeOrNothing (ok r, v) =
      (r.entries ≡ length es)
      × (r.upload
          ≡ new_upload b filename key stream
              record { line_count = suc (length es); parsed_count = count_if is_parsed es }
              r.upload.created_at)
      × (v.db ≡ rolled_up b (with_upload r.upload (with_rows (map (row_of formats b) es) d)))

  module _ (stats : Stats)
      (same : stats
        ≡ record { line_count = suc (length es); parsed_count = count_if is_parsed es }) where
    concluded-whole :
        (s : Ingesting)
        → s.world.db ≡ d
        → s.tx ≡ with_rows (map (row_of formats b) es) d
        → s.copied ≡ length es
        → WholeOrNothing (conclude b filename key stream stats s s.world)
    concluded-whole s unchanged rows number =
        from (conclude b filename key stream stats s s.world).0
          (conclude b filename key stream stats s s.world).1 refl
      where
        from :
            (r : Result IngestError IngestResult) (v : World)
            → conclude b filename key stream stats s s.world ≡ (r, v)
            → WholeOrNothing (r, v)
        from (err e) v q =
            ap (λ (p : Result IngestError IngestResult × World). p.1.db) (sym q)
            ∙ (Clean-conclude b filename key stream stats s).at s.world e
                (ap (λ (p : Result IngestError IngestResult × World). p.0) q)
            ∙ unchanged
        from (ok r) v q =
            let (copied, made, stands) = conclude-ok b filename key stream stats s s.world r v q in
            (
              copied ∙ number,
              made
                  ∙ ap (λ (st : Stats). new_upload b filename key stream st r.upload.created_at)
                      same,
              stands ∙ ap (λ (t : Db). rolled_up b (with_upload r.upload t)) rows,
            )

  flushed-tx :
      (s : Ingesting)
      → s.pending ≡ []
      → stored formats b s ≡ with_rows (map (row_of formats b) es) d
      → s.tx ≡ with_rows (map (row_of formats b) es) d
  flushed-tx s empty h =
      sym (with_rows-none s.tx)
      ∙ ap (λ (l : List Entry). with_rows (map (row_of formats b) l) s.tx) (sym empty)
      ∙ h

  flushed-copied :
      (s : Ingesting) → s.pending ≡ [] → seen formats b s ≡ 0 + 0 + length es → s.copied ≡ length es
  flushed-copied s empty h = omega (arith, h, ap (λ (l : List Entry). length l) empty)

  module _ (p : Parsing Ingesting) where
    parse_failed :
        (e : ReadError)
        → p.error ≡ some e
        → after_parse formats b filename key stream p ≡ (err (ingest_error e), p.state.world)
    unfolding after_parse
    parse_failed e q = ground (arith, q)

    flush_failed :
        (e : ReadError)
        → p.error ≡ none
        → (flush formats b p.state).1 ≡ some e
        → after_parse formats b filename key stream p
          ≡ (err (ingest_error e), (put_object key (flush formats b p.state).0.world).1)
    unfolding after_parse
    flush_failed e q q' = ground (arith, q, q')

    went_well :
        p.error ≡ none
        → (flush formats b p.state).1 ≡ none
        → after_parse formats b filename key stream p
          ≡ conclude b filename key stream p.stats
              (flush formats b p.state).0
              (flush formats b p.state).0.world
    unfolding after_parse
    went_well q q' = ground (arith, q, q')

  pub after_parse_lem :
      (w : World) (bound : ℕ) (p : Parsing Ingesting)
      → w.db ≡ d
      → outcome p ≡ emit_all (take_entry formats b bound) es (opened w d)
      → (p.error ≡ none
          → p.stats ≡ record { line_count = suc (length es); parsed_count = count_if is_parsed es })
      → WholeOrNothing (after_parse formats b filename key stream p)
  after_parse_lem w bound p at_first ran counts =
      let ends : Ingesting × Option ReadError =
        emit_all (take_entry formats b bound) es (opened w d) in
      let untouched : p.state.world.db ≡ d =
        ap (λ (r : Ingesting × Option ReadError). r.0.world.db) ran
        ∙ emit_all-db formats b bound es (opened w d)
        ∙ at_first in
      elim (Option-cases p.error) [
        | inr (e, q) ↦ subst WholeOrNothing (sym (parse_failed p e q)) untouched
        | inl q ↦ elim (Option-cases (flush formats b p.state).1) [
          | inr (e, q') ↦ subst WholeOrNothing (sym (flush_failed p e q q')) (
              (Reads-put_object key).at (flush formats b p.state).0.world
              ∙ flush-db formats b p.state
              ∙ untouched)
          | inl q' ↦
              let (empty, rows, number, _) = flush_lem formats b p.state q' in
              let (taken, taken_number) =
                emit_all_lem formats b bound es (opened w d)
                  (sym (ap (λ (r : Ingesting × Option ReadError). r.1) ran) ∙ q) in
              subst WholeOrNothing (sym (went_well p q q')) (
                concluded-whole p.stats (counts q) (flush formats b p.state).0
                  (flush-db formats b p.state ∙ untouched)
                  (flushed-tx (flush formats b p.state).0 empty (
                    rows
                    ∙ ap (λ (r : Ingesting × Option ReadError). stored formats b r.0) ran
                    ∙ taken))
                  (flushed-copied (flush formats b p.state).0 empty (
                    number
                    ∙ ap (λ (r : Ingesting × Option ReadError). seen formats b r.0) ran
                    ∙ taken_number)))
        ]
      ]
