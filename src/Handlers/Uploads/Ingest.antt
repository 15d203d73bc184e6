-- ===== src/Handlers/Uploads/Ingest.antt =====
-- backend/gateway/internal/handlers/uploads.go: `ingest`, from the part of a request to the committed
-- upload.
--
-- The copy to the bucket runs beside the parser and is waited for: it stands here where the code
-- takes its answer, and it stores nothing where the tee is closed with an error. `Parse` may not
-- end, so the result of `ingest` is an Option.

pub mod Batches
pub mod Commits
pub mod Oversize
pub mod Stored
pub mod Whole
use log_monitor_tenex.Prelude.{
  ℕ, zero, suc, Text, codes, Bool, true, false, not, Option, none, some, List, [], ◌∷◌, ◌++◌, ◌==◌,
  ltb, leb, length, if◌then◌else◌, ◌+◌, ◌-◌, take,
}
use log_monitor_tenex.Parser.{
  Entry, Stats, Stream, ReadError, too_large, storage_failed, broken_stream,
}
use log_monitor_tenex.Parser.Zscaler.{Parsing, parse}
use log_monitor_tenex.Parser.Zscaler.Header.{Field, sniff}
use log_monitor_tenex.Parser.Zscaler.Values.{Formats}
use log_monitor_tenex.Store.Tables.{User, Upload, Db}
use log_monitor_tenex.Store.Ingest.{
  IngestBatch, copy_entries, ensure_partitions, build_rollups, create_upload, begin, commit,
}
use log_monitor_tenex.Api.{Api}
use log_monitor_tenex.World.{
  World, Exec, Result, ok, err, Error, unavailable, pure, raise, gets, try, or_else, fails, called,
  ◌>>=◌, ◌>>◌,
}

-- `capReader`: how much was read, and what is left. An answer of `Read` is the bytes, and the error
-- beside them, if any.
pub data ReadEnd : Type 0 where
  going_on at_end over_limit : ReadEnd

pub record CapReader : Type 0 where
  pub left : Text
  pub limit : ℕ
  pub read : ℕ

abbrev drop : ℕ → Text → Text
drop zero s = s
drop (suc n) [] = []
drop (suc n) (c ∷ s) = drop n s

abbrev end_of : Text → ReadEnd
end_of [] = at_end
end_of (c ∷ s) = going_on

-- `Read` for a buffer of `n` bytes.
unfoldable pub read_capped : ℕ → CapReader → (Text × ReadEnd) × CapReader
read_capped n c =
    let bytes = take n c.left in
    let after : CapReader = record {
      left = drop n c.left;
      limit = c.limit;
      read = c.read + length bytes;
    } in
    ((bytes, if ltb c.limit after.read then over_limit else end_of c.left), after)

-- What the closures of `ingest` share: the transaction, and the world in which its statements run.
pub record Ingesting : Type 0 where
  pub world : World
  pub tx : Db
  pub pending : List Entry
  pub min_ts : Option ℕ
  pub max_ts : Option ℕ
  pub copied : ℕ

abbrev earliest : Option ℕ → Option ℕ → Option ℕ
earliest none seen = seen
earliest (some t) none = some t
earliest (some t) (some m) = if ltb t m then some t else some m

abbrev latest : Option ℕ → Option ℕ → Option ℕ
latest none seen = seen
latest (some t) none = some t
latest (some t) (some m) = if ltb m t then some t else some m

abbrev pub span : Entry → Ingesting → Ingesting
span e s = record s {
  pending = s.pending ++ e ∷ [];
  min_ts = earliest e.ts s.min_ts;
  max_ts = latest e.ts s.max_ts;
}

-- The statements of a flush that is not of an empty batch.
unfoldable pub flush_rows : Formats → IngestBatch → Ingesting → Exec Error (ℕ × Db)
unfolding ensure_partitions
flush_rows formats b s = do
  (_, tx) ← ensure_partitions s.min_ts s.max_ts s.tx
  copy_entries formats b s.pending tx

abbrev flushed : Ingesting → Result Error (ℕ × Db) × World → Ingesting × Option ReadError
flushed s (ok (n, tx), w) =
    (record s { world = w; tx = tx; pending = []; copied = s.copied + n }, none)
flushed s (err e, w) = (record s { world = w }, some storage_failed)

-- `flush`
unfoldable pub flush : Formats → IngestBatch → Ingesting → Ingesting × Option ReadError
unfolding flush_rows
flush formats b s = elim s.pending [
  | [] ↦ (s, none)
  | e ∷ es ↦ flushed s (flush_rows formats b s s.world)
]

-- The function that `ingest` hands to `Parse`, for a bound on the batch.
unfoldable pub take_entry :
    Formats → IngestBatch → ℕ → Entry → Ingesting → Ingesting × Option ReadError
unfolding flush
take_entry formats b bound e s =
    let s' = span e s in if leb bound (length s'.pending) then flush formats b s' else (s', none)

-- `copyBatch`
unfoldable pub copy_batch : ℕ
copy_batch = 5000

-- `errTooLarge`, `errEmptyFile`, `errUnsupportedFormat`, and any other.
pub data IngestError : Type 0 where
  exceeds_limit empty_file unsupported_format ingest_failed : IngestError

unfoldable pub ingest_error : ReadError → IngestError
ingest_error too_large = exceeds_limit
ingest_error broken_stream = ingest_failed
ingest_error storage_failed = ingest_failed

abbrev pub store_failed : Error → IngestError
store_failed _ = ingest_failed

-- `Blob.Put`, which reads the archive's bytes to their end.
unfoldable pub put_object : Text → Exec Error (Unit {0})
unfolding fails called
put_object key w =
    if fails w
    then (err unavailable, called w)
    else (ok tt, record (called w) { bucket = w.bucket ++ key ∷ [] })

-- `ingestResult`
pub record IngestResult : Type 0 where
  pub upload : Upload
  pub entries : ℕ

abbrev guard_lines : ℕ → Exec IngestError (Unit {0})
guard_lines n = if n == 0 then raise empty_file else pure tt

abbrev pub new_upload : IngestBatch → Text → Text → Stream → Stats → ℕ → Upload
new_upload b filename key stream stats now = record {
  id = b.upload_id;
  org_id = b.org_id;
  user_id = b.user_id;
  filename = filename;
  byte_size = stream.size;
  line_count = stats.line_count;
  parsed_count = stats.parsed_count;
  format = codes "zscaler_nss";
  object_key = key;
  created_at = now;
}

-- What follows on the last flush: the archive, the upload's row, the rollups and the commit.
unfoldable pub conclude :
    IngestBatch → Text → Text → Stream → Stats → Ingesting → Exec IngestError IngestResult
unfolding put_object create_upload build_rollups commit
conclude b filename key stream stats s = do
  or_else store_failed (put_object key)
  guard_lines stats.line_count
  up ← gets (λ w. new_upload b filename key stream stats w.now)
  (_, tx) ← or_else store_failed (create_upload up s.tx)
  (_, rolled_up) ← or_else store_failed (build_rollups b tx)
  or_else store_failed (commit rolled_up)
  pure record { upload = up; entries = s.copied }

-- The end of `ingest`, on what `Parse` returns. Where it fails the archive's stream is broken off with
-- its error, and nothing is archived; where only the last flush fails the stream was closed as usual,
-- and the archive is complete, with its own error unread.
unfoldable pub after_parse :
    Formats
    → IngestBatch
    → Text
    → Text
    → Stream
    → Parsing Ingesting
    → Result IngestError IngestResult × World
unfolding flush conclude ingest_error put_object
after_parse formats b filename key stream p = elim p.error [
  | some e ↦ (err (ingest_error e), p.state.world)
  | none ↦
      let (s, failed) = flush formats b p.state in
      elim failed [
        | some e ↦ (err (ingest_error e), (put_object key s.world).1)
        | none ↦ conclude b filename key stream p.stats s s.world
      ]
]

-- An unrecognised file is archived all the same.
abbrev refuse_format : Text → Exec IngestError IngestResult
refuse_format key = do try {E = Error} (put_object key); raise unsupported_format

abbrev opened : World → Db → Ingesting
opened w tx = record { world = w; tx = tx; pending = []; min_ts = none; max_ts = none; copied = 0 }

abbrev pub when_ended : {A B : Type 0} → (A → B) → Option A → Option B
when_ended f none = none
when_ended f (some a) = some (f a)

-- blob.go, `Key`
unfoldable pub object_key : Api → Formats → ℕ → ℕ → ℕ → ℕ → Text
object_key api formats org user upload now =
    api.uuid_text org
    ++ b'/'
      ∷ (api.uuid_text user
          ++ b'/' ∷ (formats.format_day now ++ b'/' ∷ (api.uuid_text upload ++ codes ".log.zst")))

module _ (api : Api) (formats : Formats) (fuel : ℕ) (order : List Field) where
  -- `ingest` on an open transaction.
  unfoldable pub ingest_into :
      IngestBatch
      → Text
      → Text
      → Stream
      → Db
      → World
      → Option (Result IngestError IngestResult × World)
  unfolding after_parse take_entry
  ingest_into b filename key stream tx w =
      when_ended (after_parse formats b filename key stream)
        (parse formats (take_entry formats b copy_batch) fuel order stream (opened w tx))

  abbrev pub with_tx :
      (Db → World → Option (Result IngestError IngestResult × World))
      → Result Error Db × World
      → Option (Result IngestError IngestResult × World)
  with_tx f (ok tx, w) = f tx w
  with_tx f (err e, w) = some (err ingest_failed, w)

  -- `ingest`
  unfoldable pub ingest :
      User → Text → Stream → World → Option (Result IngestError IngestResult × World)
  unfolding ingest_into object_key ingest_error begin sniff
  ingest caller filename stream w =
      let id = w.fresh in
      let key = object_key api formats caller.org_id caller.id id w.now in
      let w' : World = record w { fresh = suc id } in
      let b : IngestBatch = record {
        upload_id = id;
        org_id = caller.org_id;
        user_id = caller.id;
      } in
      elim stream.head_error [
        | some e ↦ some (err (ingest_error e), w')
        | none ↦
            if not (sniff stream.head)
            then some (refuse_format key w')
            else with_tx (ingest_into b filename key stream) (begin w')
      ]
