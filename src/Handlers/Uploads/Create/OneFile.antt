-- ===== src/Handlers/Uploads/Create/OneFile.antt =====
-- A form with one file, step by step through `createUpload`.
use log_monitor_tenex.Prelude.{
  ℕ, suc, Text, Bool, true, false, Option, none, some, List, [], ◌∷◌, ◌++◌, ◌≡◌, ◌≢◌, ◌⊎◌, refl, ap,
  ◌∙◌, arith, length, map, all, count_if, inl, inr,
}
use log_monitor_tenex.Parser.{Stream, Entry, is_parsed}
use log_monitor_tenex.Parser.Zscaler.Header.{Field}
use log_monitor_tenex.Parser.Zscaler.Values.{Formats}
use log_monitor_tenex.Store.Tables.{User, Upload, Analysis, Db}
use log_monitor_tenex.Api.{Api}
use log_monitor_tenex.Http.{Response}
use log_monitor_tenex.World.{World, Result, ok, err, try, ◌>>=◌}
use log_monitor_tenex.World.Rules.{Reads-pure}
use log_monitor_tenex.World.Keeps.{Keeps, Keeps-Reads, Keeps-try, Keeps-bind}
use log_monitor_tenex.Handlers.Analyses.{LaunchError, launch_analysis, normalise_scope}
use log_monitor_tenex.Store.Ingest.{IngestBatch, row_of, with_rows, with_upload}
use log_monitor_tenex.Handlers.Uploads.Ingest.{
  IngestError, IngestResult, new_upload, exceeds_limit, empty_file, unsupported_format,
  ingest_failed, ingest,
}
use log_monitor_tenex.Handlers.Uploads.Ingest.Commits.{rolled_up}
use log_monitor_tenex.Handlers.Uploads.Ingest.Stored.{WholeOrNothing}
use log_monitor_tenex.Handlers.Uploads.Create.Effect.{but_analyses, Keeps-launch_analysis}
use log_monitor_tenex.Handlers.Uploads.Create.{
  scope_part, window_part, other_part, or_default_name, after_file, start_with, launched, finished,
  then_finish, read_small_field, scan_int, Part, file_part, Gathering, has_allowed_suffix,
  read_parts, start_after_ingest, ingest_failure,
}

abbrev pub is_field : Part → Bool
is_field (file_part name stream) = false
is_field _ = true

module _ (api : Api) (formats : Formats) (fuel : ℕ) (order : List Field) (caller : User) where
  -- The fields of a form change the scope and the window only.
  pub fields-read :
      (fields rest : List Part) (bad : Bool) (g : Gathering) (w : World)
      → all is_field fields ≡ true
      → (g' : Gathering) × (g'.result ≡ g.result)
        × (read_parts api formats fuel order caller (fields ++ rest) bad g w
            ≡ read_parts api formats fuel order caller rest bad g' w)
  unfolding read_parts
  fields-read [] rest bad g w h = (g, refl, refl)
  fields-read (scope_part v ∷ fields) rest bad g w h =
      fields-read fields rest bad (record g { scope = read_small_field v }) w h
  fields-read (window_part v ∷ fields) rest bad g w h =
      fields-read fields rest bad (record g { window = scan_int g.window (read_small_field v) }) w h
  fields-read (other_part ∷ fields) rest bad g w h = fields-read fields rest bad g w h
  fields-read (file_part name stream ∷ fields) rest bad g w h = cc

  pub file-read :
      (name : Text) (stream : Stream) (rest : List Part) (bad : Bool) (g : Gathering) (w : World)
      → has_allowed_suffix (or_default_name name) ≡ true
      → api.has_blob ≡ true
      → read_parts api formats fuel order caller (file_part name stream ∷ rest) bad g w
        ≡ after_file api
            (read_parts api formats fuel order caller rest bad)
            g
            (ingest api formats fuel order caller (or_default_name name) stream w)
  unfolding read_parts
  file-read name stream rest bad g w suffix blob = ground (arith, suffix, blob)

  launched_created :
      (up : Upload) (scope : Text) (a : Result LaunchError (Analysis × ℕ))
      → (launched api formats fuel order caller up scope a).status ≡ 201
  launched_created up scope (ok a) = refl
  launched_created up scope (err e) = refl

  -- The upload is answered with 201, whether or not its analysis starts.
  module _ (r : IngestResult) where
    Keeps-start_with :
        (given : Option (Text × Option ℕ))
        → Keeps but_analyses (start_with api formats fuel order caller r given)
    unfolding start_with
    Keeps-start_with none = Keeps-Reads but_analyses _ (Reads-pure _)
    Keeps-start_with (some (scope, window)) =
        Keeps-bind but_analyses (try (launch_analysis api r.upload scope window r.entries)) _
          (Keeps-try but_analyses (launch_analysis api r.upload scope window r.entries)
            (Keeps-launch_analysis api r.upload scope window r.entries))
          (λ a. Keeps-Reads but_analyses _ (Reads-pure _))

    start_with-Created :
        (given : Option (Text × Option ℕ)) (w : World)
        → (q : Response) × ((start_with api formats fuel order caller r given w).0 ≡ ok q)
          × (q.status ≡ 201)
    unfolding start_with ◌>>=◌
    start_with-Created none w = (_, refl, refl)
    start_with-Created (some (scope, window)) w = (
      _,
      refl,
      launched_created r.upload scope (launch_analysis api r.upload scope window r.entries w).0,
    )

    -- The end of the handler, with a file stored.
    abbrev pub Created : World → Option (Result Response Response × World) → Type 0
    Created w o =
        (q : Response) × (v : World) × (o ≡ some (ok q, v))
        × (q.status ≡ 201)
        × (but_analyses v.db ≡ but_analyses w.db)

    finished-run :
        (g : Gathering) (w : World)
        → g.result ≡ some r
        → finished api formats fuel order caller g w
          ≡ start_with api formats fuel order caller r (normalise_scope g.scope (some g.window)) w
    unfolding start_after_ingest
    finished-run g w h = ground (arith, h)

    finish-Created :
        (g : Gathering) (w : World)
        → g.result ≡ some r
        → Created w (some (finished api formats fuel order caller g w))
    finish-Created g w h =
        let run = start_with-Created (normalise_scope g.scope (some g.window)) w in
        (
          run.0,
          (start_with api formats fuel order caller r (normalise_scope g.scope (some g.window))
              w).1,
          ap (λ (x : Result Response Response × World). some x)
              (finished-run g w h
                ∙ ap
                    (λ (x : Result Response Response). (
                      x,
                      (start_with api formats fuel order caller r
                          (normalise_scope g.scope (some g.window)) w).1,
                    ))
                    run.1),
          run.2,
          (Keeps-start_with (normalise_scope g.scope (some g.window))).at w,
        )

  pub ingest_failure-status : (e : IngestError) → (ingest_failure api e).status ≢ 201
  unfolding ingest_failure
  ingest_failure-status exceeds_limit h = omega (arith, h)
  ingest_failure-status empty_file h = omega (arith, h)
  ingest_failure-status unsupported_format h = omega (arith, h)
  ingest_failure-status ingest_failed h = omega (arith, h)

  module _ (name : Text) (stream : Stream) (b : IngestBatch) (key : Text) (w : World)
      (es : List Entry) where
    -- The database when the upload is stored, beside its analyses.
    abbrev pub StoredUpload : Db → Type 0
    StoredUpload d =
        (r : IngestResult) × (r.upload
          ≡ new_upload b (or_default_name name) key stream
              record { line_count = suc (length es); parsed_count = count_if is_parsed es }
              r.upload.created_at)
        × (but_analyses d
            ≡ but_analyses
                (rolled_up b (with_upload r.upload (with_rows (map (row_of formats b) es) w.db))))

    abbrev pub Answer201 : Option (Result Response Response × World) → Type 0
    Answer201 o =
        ((q : Response) × (v : World) × (o ≡ some (ok q, v)) × (q.status ≡ 201) × StoredUpload v.db)
        ⊎ ((q : Response) × (v : World) × (o ≡ some (err q, v)) × (q.status ≢ 201) × (v.db ≡ w.db))

    pub after_file-answer :
        (g : Gathering) (r : Result IngestError IngestResult) (v : World)
        → WholeOrNothing formats b (or_default_name name) key stream w.db es (r, v)
        → Answer201 (
            then_finish api formats fuel order caller
              (after_file api (read_parts api formats fuel order caller [] false) g (some (r, v))))
    unfolding read_parts
    after_file-answer g (ok r) v (number, made, stands) =
        let (q, u, e, status, kept) = finish-Created r (record g { result = some r }) v refl in
        inl (q, u, e, status, (r, made, kept ∙ ap but_analyses stands))
    after_file-answer g (err e) v same =
        inr (ingest_failure api e, v, refl, ingest_failure-status e, same)
