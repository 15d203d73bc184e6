-- ===== src/Handlers/Uploads/Create.antt =====
-- backend/gateway/internal/handlers/uploads.go: `createUpload`, part by part.
pub mod Effect
pub mod OneFile
pub mod Answers
use mathlib.Core.List.{reverse}
use log_monitor_tenex.Prelude.{
  ℕ, zero, suc, String, Text, codes, Bool, true, false, not, Option, none, some, List, [], ◌∷◌,
  ◌++◌, ◌==◌, ◌&&◌, ◌||◌, ltb, leb, any, map, take, to_lower, trim_space, if◌then◌else◌, ◌+◌, ◌-◌,
  ◌*◌, ◌/◌, ◌^◌,
}
use log_monitor_tenex.Parser.{Stream}
use log_monitor_tenex.Parser.Zscaler.Header.{Field, texts}
use log_monitor_tenex.Parser.Zscaler.Values.{Formats}
use log_monitor_tenex.Store.Tables.{User, Upload, Analysis}
use log_monitor_tenex.Api.{Api}
use log_monitor_tenex.Http.{Response, Body, created_body, over_limit_body, json, failure}
use log_monitor_tenex.World.{World, Exec, Result, ok, err, try, pure, ◌>>=◌}
use log_monitor_tenex.Handlers.Analyses.{LaunchError, launch_analysis, normalise_scope}
use log_monitor_tenex.Handlers.Uploads.Ingest.{
  IngestError, exceeds_limit, empty_file, unsupported_format, ingest_failed, IngestResult, ingest,
}

-- A part of the form by its name.
pub data Part : Type 0 where
  scope_part window_part : Text → Part
  file_part : Text → Stream → Part
  other_part : Part

-- The parts that arrive, and whether `NextPart` then fails in place of `io.EOF`.
pub record Form : Type 0 where
  pub parts : List Part
  pub malformed : Bool

abbrev is_prefix : Text → Text → Bool
is_prefix [] s = true
is_prefix (p ∷ ps) [] = false
is_prefix (p ∷ ps) (c ∷ s) = p == c && is_prefix ps s

-- `strings.HasSuffix`
abbrev has_suffix : Text → Text → Bool
has_suffix s suffix = is_prefix (reverse suffix) (reverse s)

-- `hasAllowedSuffix`, with `allowedSuffixes`
unfoldable pub has_allowed_suffix : Text → Bool
unfolding to_lower
has_allowed_suffix name =
    any (has_suffix (map to_lower name)) (texts (".log" ∷ ".txt" ∷ ".csv" ∷ ".tsv" ∷ []))

-- `readSmallField`
unfoldable pub read_small_field : Text → Text
unfolding trim_space
read_small_field v = trim_space (take 1024 v)

abbrev is_digit : ℕ → Bool
is_digit c = leb b'0' c && leb c b'9'

abbrev scan_digits : ℕ → Text → ℕ
scan_digits n [] = n
scan_digits n (c ∷ s) =
    let later = scan_digits (n * 10 + (c - b'0')) s in if is_digit c then later else n

abbrev starts_digit : Text → Bool
starts_digit [] = false
starts_digit (c ∷ s) = is_digit c

abbrev scan_unsigned : ℕ → Text → ℕ
scan_unsigned old s =
    if starts_digit s
    then (if ltb (scan_digits 0 s) (2 ^ 63) then scan_digits 0 s else old)
    else old

abbrev scan_below_zero : ℕ → Text → ℕ
scan_below_zero old s =
    if starts_digit s then (if leb (scan_digits 0 s) (2 ^ 63) then 0 else old) else old

-- `fmt.Sscanf` with `%d` into a variable that keeps its value where it fails; a negative number
-- counts as 0.
unfoldable pub scan_int : ℕ → Text → ℕ
scan_int old [] = old
scan_int old (c ∷ s) =
    if c == b'-'
    then scan_below_zero old s
    else if c == b'+'
    then scan_unsigned old s
    else scan_unsigned old (c ∷ s)

-- The variables of the loop over the parts.
pub record Gathering : Type 0 where
  pub scope : Text
  pub window : ℕ
  pub result : Option IngestResult

abbrev pub or_default_name : Text → Text
or_default_name [] = codes "upload.log"
or_default_name (c ∷ s) = c ∷ s

-- `failIngest`
unfoldable pub ingest_failure : Api → IngestError → Response
ingest_failure api exceeds_limit = json 413 (over_limit_body (api.max_upload_bytes / (1024 * 1024)))
ingest_failure api empty_file = failure 400 "File is empty"
ingest_failure api unsupported_format =
    failure 400
      "Could not recognise this log format. Expected a delimited file with a header row naming its columns (supported: zscaler_nss)."
ingest_failure api ingest_failed = failure 500 "Could not process the upload"

-- What follows on `ingest` in the loop.
abbrev pub after_file :
    {R : Type 0}
    → Api
    → (Gathering → World → Option (Result Response R × World))
    → Gathering
    → Option (Result IngestError IngestResult × World)
    → Option (Result Response R × World)
after_file api go_on g none = none
after_file api go_on g (some (ok r, w)) = go_on (record g { result = some r }) w
after_file api go_on g (some (err e, w)) = some (err (ingest_failure api e), w)

module _ (api : Api) (formats : Formats) (fuel : ℕ) (order : List Field) (caller : User) where
  -- The loop of `createUpload`; after the parts, whether the body is malformed.
  unfoldable pub read_parts :
      List Part → Bool → Gathering → World → Option (Result Response Gathering × World)
  unfolding has_allowed_suffix read_small_field scan_int ingest_failure
  read_parts [] true g w = some (err (failure 400 "Malformed multipart body"), w)
  read_parts [] false g w = some (ok g, w)
  read_parts (scope_part v ∷ parts) bad g w =
      read_parts parts bad (record g { scope = read_small_field v }) w
  read_parts (window_part v ∷ parts) bad g w =
      read_parts parts bad (record g { window = scan_int g.window (read_small_field v) }) w
  read_parts (other_part ∷ parts) bad g w = read_parts parts bad g w
  read_parts (file_part name stream ∷ parts) bad g w =
      let go_on = read_parts parts bad in
      let filename = or_default_name name in
      if not (has_allowed_suffix filename)
      then some
          (err (failure 400 "Unsupported file type. Expected one of: .log, .txt, .csv, .tsv"), w)
      else if not api.has_blob
      then some (err (failure 503 "Object storage is not configured"), w)
      else after_file api go_on g (ingest api formats fuel order caller filename stream w)

  abbrev pub launched : Upload → Text → Result LaunchError (Analysis × ℕ) → Response
  launched up scope (ok a) = json 201 (created_body up scope (some a))
  launched up scope (err e) = json 201 (created_body up scope none)

  -- The analysis that follows on the upload, which may fail to start.
  unfoldable pub start_with : IngestResult → Option (Text × Option ℕ) → Exec Response Response
  unfolding launch_analysis
  start_with r none = pure (json 201 (created_body r.upload [] none))
  start_with r (some (scope, window)) = do
    a ← try (launch_analysis api r.upload scope window r.entries)
    pure (launched r.upload scope a)

  -- The end of `createUpload`, when a file was stored.
  unfoldable pub start_after_ingest : IngestResult → Gathering → Exec Response Response
  unfolding start_with normalise_scope
  start_after_ingest r g = start_with r (normalise_scope g.scope (some g.window))

  abbrev pub finished : Gathering → World → Result Response Response × World
  finished g w = elim g.result [
    | none ↦ (err (failure 400 "No file part in the request"), w)
    | some r ↦ start_after_ingest r g w
  ]

  abbrev pub then_finish :
      Option (Result Response Gathering × World) → Option (Result Response Response × World)
  then_finish none = none
  then_finish (some (ok g, w)) = some (finished g w)
  then_finish (some (err e, w)) = some (err e, w)

  -- `createUpload`
  unfoldable pub create_upload_handler :
      Option Form → World → Option (Result Response Response × World)
  unfolding read_parts start_after_ingest
  create_upload_handler none w = some (err (failure 400 "Expected a multipart upload"), w)
  create_upload_handler (some form) w = then_finish (
      read_parts form.parts form.malformed
        record { scope = codes "file"; window = 0; result = none } w)
