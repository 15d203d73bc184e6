-- ===== src/Handlers/Uploads/Create/Answers.antt =====
-- A form with one file: what `createUpload` answers, and what it leaves in the database.
use mathlib.Core.Path.{subst}
use log_monitor_tenex.Prelude.{
  ℕ, Text, codes, Bool, true, Option, none, some, List, [], ◌∷◌, ◌++◌, ◌≡◌, sym, ap, ◌∙◌, ◌<◌,
  length, all,
}
use log_monitor_tenex.Parser.{Stream, Entry, Answer}
use log_monitor_tenex.Parser.Zscaler.Header.{Field, sniff}
use log_monitor_tenex.Parser.Zscaler.Values.{Formats}
use log_monitor_tenex.Parser.Runs.{Begins}
use log_monitor_tenex.Store.Tables.{User, Db}
use log_monitor_tenex.Api.{Api}
use log_monitor_tenex.Http.{failure}
use log_monitor_tenex.World.{World, ok, err}
use log_monitor_tenex.Store.Ingest.{IngestBatch, with_grain, with_status}
use log_monitor_tenex.Handlers.Uploads.Ingest.{IngestResult, ingest}
use log_monitor_tenex.Handlers.Uploads.Ingest.Stored.{WholeOrNothing}
use log_monitor_tenex.Handlers.Uploads.Ingest.Whole.{batch_of, key_of, read_entries, ingest_lem}
use log_monitor_tenex.Handlers.Uploads.Create.OneFile.{is_field, fields-read, file-read}
use log_monitor_tenex.Handlers.Uploads.Create.{
  or_default_name, after_file, then_finish, Part, Form, file_part, Gathering, has_allowed_suffix,
  read_parts, create_upload_handler,
}

some_injective : {A : Type 0} {a b : A} → some a ≡ some b → a ≡ b
some_injective h = cc

module _ (api : Api) (formats : Formats) (fuel comma : ℕ) (order : List Field) (caller : User)
    (name : Text) (header : List Text) (answers : List Answer) (stream : Stream) (w : World)
    (fields : List Part) where
  abbrev pub form : Bool → Option Form
  form bad = some record { parts = fields ++ file_part name stream ∷ []; malformed = bad }

  abbrev pub batch : IngestBatch
  batch =
      batch_of api formats fuel comma order caller (or_default_name name) header answers stream w

  abbrev pub key : Text
  key = key_of api formats fuel comma order caller (or_default_name name) header answers stream w

  abbrev pub entries : List Entry
  entries =
      read_entries api formats fuel comma order caller (or_default_name name) header answers stream
        w

  -- The parts of the form are read up to the end of the body.
  form-read :
      (bad : Bool)
      → all is_field fields ≡ true
      → has_allowed_suffix (or_default_name name) ≡ true
      → api.has_blob ≡ true
      → (g : Gathering) × (create_upload_handler api formats fuel order caller (form bad) w
          ≡ then_finish api formats fuel order caller (
              after_file api
                (read_parts api formats fuel order caller [] bad)
                g
                (ingest api formats fuel order caller (or_default_name name) stream w)))
  unfolding create_upload_handler
  form-read bad h suffix blob =
      let (g, _, e) =
        fields-read api formats fuel order caller fields (file_part name stream ∷ []) bad
          record { scope = codes "file"; window = 0; result = none } w h in
      (
        g,
        ap (then_finish api formats fuel order caller)
            (e ∙ file-read api formats fuel order caller name stream [] bad g w suffix blob),
      )

  -- The same form in a body that breaks off behind the file, where `ingest` stores the upload: the
  -- answer is a failure with 400, although the upload has been stored, and no analysis has been
  -- made for it.
  pub create_upload-broken_off :
      all is_field fields ≡ true
      → has_allowed_suffix (or_default_name name) ≡ true
      → api.has_blob ≡ true
      → Begins comma header answers none stream
      → sniff stream.head ≡ true
      → length answers < fuel
      → (r : IngestResult) (v : World)
      → ingest api formats fuel order caller (or_default_name name) stream w ≡ some (ok r, v)
      → (create_upload_handler api formats fuel order caller (form true) w
          ≡ some (err (failure 400 "Malformed multipart body"), v))
        × (v.db.uploads ≡ w.db.uploads ++ r.upload ∷ [])
        × (v.db.analyses ≡ w.db.analyses)
  unfolding read_parts with_grain with_status
  create_upload-broken_off h suffix blob starts known enough r v stored =
      let (g, run) = form-read true h suffix blob in
      let (q, returned, whole) =
        ingest_lem api formats fuel comma order caller (or_default_name name) header answers stream
          w starts known enough in
      let (_, _, stands) =
        subst (WholeOrNothing formats batch (or_default_name name) key stream w.db entries)
          (some_injective (sym returned ∙ stored)) whole in
      (
        run
            ∙ ap
                (λ x.
                  then_finish api formats fuel order caller
                    (after_file api (read_parts api formats fuel order caller [] true) g x))
                stored,
        ap (λ (d : Db). d.uploads) stands,
        ap (λ (d : Db). d.analyses) stands,
      )
