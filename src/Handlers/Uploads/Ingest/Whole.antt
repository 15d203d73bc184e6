-- ===== src/Handlers/Uploads/Ingest/Whole.antt =====
-- `ingest` from end to end: it ends on every file that ends, and stores the whole of it or nothing.
use mathlib.Core.Path.{subst}
use log_monitor_tenex.Prelude.{
  ℕ, suc, Text, true, Option, none, some, List, ◌≡◌, refl, sym, ap, ◌<◌, arith, length,
}
use log_monitor_tenex.Parser.{Entry, Stream, Stats, Answer}
use log_monitor_tenex.Parser.Zscaler.Header.{Field, build_column_map, sniff}
use log_monitor_tenex.Parser.Zscaler.Values.{Formats}
use log_monitor_tenex.Parser.Runs.{entries_of, Begins, parse_lem}
use log_monitor_tenex.Store.Tables.{Db, User}
use log_monitor_tenex.Store.Ingest.{IngestBatch, begin}
use log_monitor_tenex.Parser.Lines.{length-entries_of}
use log_monitor_tenex.Handlers.Uploads.Ingest.Stored.{WholeOrNothing, after_parse_lem}
use log_monitor_tenex.Api.{Api}
use log_monitor_tenex.World.{World, Result, ok, err, Error, select, fails, called}
use log_monitor_tenex.Handlers.Uploads.Ingest.{
  IngestError, IngestResult, after_parse, take_entry, opened, ingest_into, ingest, ingest_failed,
  when_ended, with_tx, object_key, copy_batch,
}

stats_of :
    (st : Stats) {m n : ℕ}
    → st.line_count ≡ m
    → st.parsed_count ≡ n
    → st ≡ record { line_count = m; parsed_count = n }
stats_of st p q = λ i. record { line_count = p i; parsed_count = q i }

module _ (api : Api) (formats : Formats) (fuel comma : ℕ) (order : List Field) (caller : User)
    (filename : Text) (header : List Text) (answers : List Answer) (stream : Stream)
    (w : World) where
  abbrev pub batch_of : IngestBatch
  batch_of = record { upload_id = w.fresh; org_id = caller.org_id; user_id = caller.id }

  abbrev pub key_of : Text
  key_of = object_key api formats caller.org_id caller.id w.fresh w.now

  abbrev pub read_entries : List Entry
  read_entries = entries_of formats (build_column_map order header) comma 2 answers

  ingest_into_lem :
      (v : World)
      → v.db ≡ w.db
      → Begins comma header answers none stream
      → length answers < fuel
      → (r : Result IngestError IngestResult × World) × (ingest_into api formats fuel order batch_of
            filename key_of stream w.db v
          ≡ some r)
        × WholeOrNothing formats batch_of filename key_of stream w.db read_entries r
  unfolding ingest_into
  ingest_into_lem v same h enough =
      let (p, returned, ran, counts) =
        parse_lem formats (take_entry formats batch_of copy_batch) fuel comma order header answers
          stream (opened v w.db) h enough in
      (
        after_parse formats batch_of filename key_of stream p,
        ap (when_ended (after_parse formats batch_of filename key_of stream)) returned,
        after_parse_lem formats batch_of filename key_of stream w.db read_entries v copy_batch p
            same ran
            (λ q.
              stats_of p.stats
                (omega (
                  arith,
                  (counts q).0,
                  length-entries_of formats (build_column_map order header) comma 2 answers,
                ))
                (omega (arith, (counts q).1))),
      )

  -- Up to the transaction: a peeked head that is recognised.
  pub ingest-opens :
      stream.head_error ≡ none
      → sniff stream.head ≡ true
      → ingest api formats fuel order caller filename stream w
        ≡ with_tx api formats fuel order
            (ingest_into api formats fuel order batch_of filename key_of stream)
            (begin (record w { fresh = suc w.fresh }))
  unfolding ingest
  ingest-opens peeked known = ground (arith, peeked, known)

  begin-db : (v : World) → (begin v).1.db ≡ v.db
  unfolding begin select fails called
  begin-db v = ground arith

  begin-ok : (v : World) {tx : Db} → (begin v).0 ≡ ok tx → tx ≡ v.db
  unfolding begin select fails called
  begin-ok v h = ground arith

  abbrev Answered : Option (Result IngestError IngestResult × World) → Type 0
  Answered o =
      (r : Result IngestError IngestResult × World) × (o ≡ some r)
      × WholeOrNothing formats batch_of filename key_of stream w.db read_entries r

  in_transaction :
      (r : Result Error Db) (v : World)
      → v.db ≡ w.db
      → ((tx : Db) → r ≡ ok tx → tx ≡ w.db)
      → Begins comma header answers none stream
      → length answers < fuel
      → Answered (
          with_tx api formats fuel order
            (ingest_into api formats fuel order batch_of filename key_of stream)
            (r, v))
  in_transaction (ok tx) v same opened_at h enough =
      subst
        (λ (t : Db).
          Answered (ingest_into api formats fuel order batch_of filename key_of stream t v))
        (sym (opened_at tx refl)) (ingest_into_lem v same h enough)
  in_transaction (err e) v same opened_at h enough = ((err ingest_failed, v), refl, same)

  -- A file that is recognised, begins with a header and ends: with more fuel than rows `ingest`
  -- returns. Where it answers with an upload, the database is the old one with one row for each
  -- record after the header, however the batches were cut, the upload with its counts, and the
  -- rollups at both grains; the entries that it reports are all of those rows. Where it answers with
  -- an error the database is the old one.
  pub ingest_lem :
      Begins comma header answers none stream
      → sniff stream.head ≡ true
      → length answers < fuel
      → (r : Result IngestError IngestResult × World) × (ingest api formats fuel order caller
            filename stream w
          ≡ some r)
        × WholeOrNothing formats batch_of filename key_of stream w.db read_entries r
  ingest_lem h known enough =
      let v : World = record w { fresh = suc w.fresh } in
      subst Answered (sym (ingest-opens h.0 known))
        (in_transaction (begin v).0 (begin v).1 (begin-db v) (λ tx e. begin-ok v e) h enough)
