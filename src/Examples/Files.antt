-- ===== src/Examples/Files.antt =====
-- A small file, and what the parser and the upload make of it.
use log_monitor_tenex.Prelude.{
  ℕ, Text, codes, Bool, true, false, Option, none, some, List, [], ◌∷◌, ◌++◌, ◌≡◌, refl, map, join,
  take, length, all, arith, before, count_char, split, trim_space, trim_left, is_space, trim,
  to_lower, leb, ◌&&◌, ◌+◌, ◌-◌, ◌*◌, if◌then◌else◌,
}
use log_monitor_tenex.Parser.{normalize, Entry, ReadError, too_large, Stream, Answer, row}
use log_monitor_tenex.Parser.Csv.{file, head_bytes, read_text, records, plain_lines}
use log_monitor_tenex.Parser.Csv.RoundTrip.{written, read_text-written}
use log_monitor_tenex.Parser.Lines.{parse_plain_file, numbered, HandsOn}
use log_monitor_tenex.Parser.Zscaler.{
  blank, parse, parse_source, parse_loop, next_answer, entry_of, counted,
}
use log_monitor_tenex.Parser.Zscaler.Header.{
  Field, all_fields, aliases, texts, column_of, build_column_map, detect_delimiter, first_line,
  sniff,
}
use log_monitor_tenex.Parser.Zscaler.Lookup.{build_column_map-column_of, first_place}
use log_monitor_tenex.Parser.Zscaler.Values.{Formats, build_entry, Number, at_least, below_zero}
use log_monitor_tenex.Parser.{is_alphanumeric}
use log_monitor_tenex.Parser.Runs.{Begins}
use log_monitor_tenex.Store.Tables.{Grain, LogRow, Db}
use log_monitor_tenex.Store.Ingest.{
  with_grain, statement, ensure_partitions, copy_entries, create_upload, build_rollups, build_grain,
  build_status_rollups, begin, commit,
}
use log_monitor_tenex.Store.Ingest.Rollups.{sum_of}
use log_monitor_tenex.Store.Ingest.Agreement.{rollups_agree, rollups_at, timed_rows}
use log_monitor_tenex.Api.{Api}
use log_monitor_tenex.World.{World, Result, ok, err, select, update, fails, called, ◌>>=◌}
use log_monitor_tenex.Handlers.Uploads.Ingest.{
  ingest, ingest_into, take_entry, flush, flush_rows, after_parse, conclude, put_object, copy_batch,
  IngestError, IngestResult,
}
use log_monitor_tenex.Handlers.Uploads.Ingest.Oversize.{ingest-goes_on}
use log_monitor_tenex.Handlers.Uploads.Ingest.Stored.{WholeOrNothing}
use log_monitor_tenex.Handlers.Uploads.Ingest.Whole.{ingest_lem, batch_of, key_of, read_entries}
use log_monitor_tenex.Handlers.Uploads.Create.{create_upload_handler, has_allowed_suffix}
use log_monitor_tenex.Handlers.Uploads.Create.Answers.{create_upload-broken_off, form, entries}
use log_monitor_tenex.Http.{failure}
use log_monitor_tenex.Examples.Sample.{gateway, log_row, start, alice}

-- Numbers are read digit by digit; there are no dates, and every address is one.
abbrev digits : ℕ → Text → ℕ
digits n [] = n
digits n (c ∷ s) = digits (n * 10 + (c - b'0')) s

abbrev number : Text → Option Number
number s = if all (λ c. leb b'0' c && leb c b'9') s then some (at_least (digits 0 s)) else none

abbrev seconds : Number → ℕ
seconds (at_least n) = n
seconds (below_zero n) = 0

abbrev pub formats : Formats
formats = record {
  parse_int = number;
  parse_float = number;
  from_unix = seconds;
  parse_time = λ layout s. none;
  add_years = λ years t. t;
  this_year = 2026;
  parse_addr = λ s. some s;
  format_day = λ t. codes "2026/01/02";
}

abbrev header : List Text
header = texts ("time" ∷ "login" ∷ "url" ∷ "status" ∷ [])

abbrev rows : List (List Text)
rows =
    texts ("7200" ∷ "ann" ∷ "http://a.b/c" ∷ "200" ∷ [])
    ∷ texts ("7260" ∷ "bob" ∷ "" ∷ "404" ∷ [])
    ∷ []

abbrev written_file : Text
written_file = written 44 (header ∷ rows)

abbrev collect : Entry → List Entry → List Entry × Option ReadError
collect e es = (es ++ e ∷ [], none)

parse_plain_file_example :
    (entries : List Entry) × (map (λ (e : Entry). e.raw) entries ≡ map (join 44) rows)
    × (map (λ (e : Entry). e.line_no) entries ≡ numbered 2 rows)
    × HandsOn collect [] entries (parse formats collect 3 all_fields (file written_file) [])
unfolding written join detect_delimiter first_line before count_char
parse_plain_file_example =
    parse_plain_file formats 44 3 all_fields header rows collect [] refl refl refl (omega arith)

build_column_map-column_of_example :
    column_of Field.url (build_column_map all_fields (texts ("Login" ∷ "URL" ∷ [])))
    ≡ first_place (aliases Field.url) (map normalize (texts ("Login" ∷ "URL" ∷ [])))
build_column_map-column_of_example =
    build_column_map-column_of all_fields Field.url (texts ("Login" ∷ "URL" ∷ [])) refl

-- The file again, where the reading fails behind the header.
abbrev failing_stream : Stream
failing_stream = record {
  head = take head_bytes written_file;
  head_error = none;
  source = λ comma. record { answers = row header ∷ []; ending = some too_large };
  size = 2000000;
}

ingest-goes_on_example :
    ingest gateway formats 9 all_fields alice (codes "a.log") failing_stream start ≡ none
unfolding written join detect_delimiter first_line before count_char sniff split normalize
    trim_space trim_left is_space trim to_lower is_alphanumeric aliases
ingest-goes_on_example =
    ingest-goes_on gateway formats 9 44 all_fields alice (codes "a.log") header [] too_large
      failing_stream start (refl, refl, refl) refl refl

abbrev stream : Stream
stream = file written_file

abbrev answers : List Answer
answers = map row rows

Begins_example : Begins 44 header answers none stream
unfolding file written join detect_delimiter first_line before count_char
Begins_example = (refl, refl, read_text-written 44 refl (header ∷ rows) refl)

ingest_lem_example :
    (r : Result IngestError IngestResult × World) × (ingest gateway formats 3 all_fields alice
        (codes "a.log")
        stream
        start
      ≡ some r)
    × WholeOrNothing formats
        (batch_of gateway formats 3 44 all_fields alice (codes "a.log") header answers stream start)
        (codes "a.log")
        (key_of gateway formats 3 44 all_fields alice (codes "a.log") header answers stream start)
        stream
        start.db
        (read_entries gateway formats 3 44 all_fields alice
          (codes "a.log")
          header
          answers
          stream
          start)
        r
unfolding file written join first_line before detect_delimiter count_char sniff split normalize
    trim_space trim_left is_space trim to_lower is_alphanumeric aliases
ingest_lem_example =
    ingest_lem gateway formats 3 44 all_fields alice (codes "a.log") header answers stream start
      Begins_example refl (omega arith)

-- Two rows of one hour and one of the next, and one without a time.
abbrev timed : ℕ → ℕ → LogRow
timed n t = record (log_row n) {
  entry = record (blank n) { ts = some t; resp_bytes = some 100; resp_code = some 200 };
}

abbrev with_times : Db
with_times = record (start.db) {
  log_entries = timed 1 7200 ∷ timed 2 7260 ∷ log_row 3 ∷ timed 4 10800 ∷ [];
}

rollups_agree_example :
    sum_of (λ r. r.requests) (rollups_at 5 Grain.hour (with_grain 5 Grain.hour with_times))
    ≡ length (timed_rows 5 with_times)
rollups_agree_example = (rollups_agree 5 Grain.hour with_times refl).0

three_timed : length (timed_rows 5 with_times) ≡ 3
unfolding blank
three_timed = refl

-- A gateway with object storage.
abbrev with_storage : Api
with_storage = record gateway { has_blob = true }

abbrev is_stored : Option (Result IngestError IngestResult × World) → Bool
is_stored (some (ok r, v)) = true
is_stored _ = false

stored_lem :
    (o : Option (Result IngestError IngestResult × World))
    → is_stored o ≡ true
    → (r : IngestResult) × (v : World) × (o ≡ some (ok r, v))
stored_lem none h = cc
stored_lem (some (ok r, v)) h = (r, v, refl)
stored_lem (some (err e, v)) h = cc

stored_example :
    is_stored (ingest with_storage formats 3 all_fields alice (codes "a.log") stream start) ≡ true
unfolding ingest ingest_into parse parse_source parse_loop next_answer entry_of counted build_entry
    take_entry flush flush_rows after_parse conclude statement ensure_partitions copy_entries
    create_upload build_rollups build_grain build_status_rollups begin commit put_object select
    update fails called ◌>>=◌ copy_batch file read_text records plain_lines written join first_line
    before detect_delimiter count_char sniff split normalize trim_space trim_left is_space trim
    to_lower is_alphanumeric aliases
stored_example = refl

abbrev Stored : Type 0
Stored =
    (r : IngestResult) × (v : World) × (ingest with_storage formats 3 all_fields alice
        (codes "a.log") stream start
      ≡ some (ok r, v))

stored_upload : Stored
stored_upload =
    stored_lem (ingest with_storage formats 3 all_fields alice (codes "a.log") stream start)
      stored_example

create_upload-broken_off_example :
    (create_upload_handler with_storage formats 3 all_fields alice
        (form with_storage formats 3 44 all_fields alice
          (codes "a.log")
          header
          answers
          stream
          start
          []
          true)
        start
      ≡ some (err (failure 400 "Malformed multipart body"), stored_upload.1))
    × (stored_upload.1.db.uploads ≡ start.db.uploads ++ stored_upload.0.upload ∷ [])
    × (stored_upload.1.db.analyses ≡ start.db.analyses)
unfolding file written join first_line before detect_delimiter count_char sniff split normalize
    trim_space trim_left is_space trim to_lower is_alphanumeric aliases has_allowed_suffix
create_upload-broken_off_example =
    create_upload-broken_off with_storage formats 3 44 all_fields alice (codes "a.log") header
      answers stream start [] refl refl refl Begins_example refl (omega arith) stored_upload.0
      stored_upload.1 stored_upload.2
