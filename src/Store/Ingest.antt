-- ===== src/Store/Ingest.antt =====
-- backend/gateway/internal/store/ingest.go: the statements of the transaction that stores an upload.
--
-- A transaction is a copy of the database that its statements change, and that `Commit` puts in the
-- place of the old one. Times are seconds since the epoch where a rollup cuts them.
pub mod Agreement
pub mod Rollups
pub mod StatusRollups
use log_monitor_tenex.Prelude.{
  ℕ, zero, suc, Text, Bool, Option, none, some, List, [], ◌∷◌, ◌++◌, map, length, if◌then◌else◌,
  keep_if, ◌==◌, ◌&&◌,
}
use log_monitor_tenex.Parser.{Entry, is_empty}
use log_monitor_tenex.Parser.Zscaler.Values.{Formats, parse_ip}
use log_monitor_tenex.Store.Tables.{Upload, LogRow, Db, Rollup, Grain}
use log_monitor_tenex.Store.Ingest.Rollups.{entry_rollups_of, upsert}
use log_monitor_tenex.Store.Ingest.StatusRollups.{status_rollups_of, upsert_status}
use log_monitor_tenex.World.{
  World, Exec, Result, ok, err, Error, unavailable, pure, select, update, fails, called, ◌>>=◌,
}

pub record IngestBatch : Type 0 where
  pub upload_id : ℕ
  pub org_id : ℕ
  pub user_id : ℕ

-- A statement of an open transaction.
unfoldable pub statement : {A : Type 0} → (Db → A × Db) → Db → Exec Error (A × Db)
unfolding fails called
statement f tx w = if fails w then (err unavailable, called w) else (ok (f tx), called w)

-- A row as `CopyEntries` writes it: an address is parsed once more.
unfoldable pub row_of : Formats → IngestBatch → Entry → LogRow
unfolding parse_ip
row_of formats b e = record {
  upload_id = b.upload_id;
  org_id = b.org_id;
  user_id = b.user_id;
  entry = record e {
    client_ip = if is_empty e.client_ip then [] else parse_ip formats e.client_ip;
  };
}

abbrev pub with_rows : List LogRow → Db → Db
with_rows rows d = record d { log_entries = d.log_entries ++ rows }

-- `CopyEntries`
unfoldable pub copy_entries : Formats → IngestBatch → List Entry → Db → Exec Error (ℕ × Db)
unfolding statement row_of
copy_entries formats b [] tx = pure (0, tx)
copy_entries formats b (e ∷ es) tx =
    statement (λ d. (length (e ∷ es), with_rows (map (row_of formats b) (e ∷ es)) d)) tx

-- `EnsurePartitions`; which partition holds a row is not seen in the tables.
unfoldable pub ensure_partitions : Option ℕ → Option ℕ → Db → Exec Error (Unit {0} × Db)
unfolding statement
ensure_partitions none to tx = pure (tt, tx)
ensure_partitions (some from) none tx = pure (tt, tx)
ensure_partitions (some from) (some to) tx = statement (λ d. (tt, d)) tx

-- One round of the loop of `BuildRollups`: the rows of the upload, aggregated at a grain.
unfoldable pub with_grain : ℕ → Grain → Db → Db
unfolding entry_rollups_of upsert
with_grain id grain d = record d {
  entry_rollups =
      upsert (entry_rollups_of grain (keep_if (λ r. r.upload_id == id) d.log_entries))
        d.entry_rollups;
}

unfoldable pub build_grain : IngestBatch → Grain → Db → Exec Error (Unit {0} × Db)
unfolding statement with_grain
build_grain b grain tx = statement (λ d. (tt, with_grain b.upload_id grain d)) tx

-- `buildStatusRollups`
unfoldable pub with_status : ℕ → Db → Db
unfolding status_rollups_of upsert_status
with_status id d = record d {
  status_rollups =
      upsert_status (status_rollups_of (keep_if (λ r. r.upload_id == id) d.log_entries))
        d.status_rollups;
}

unfoldable pub build_status_rollups : IngestBatch → Db → Exec Error (Unit {0} × Db)
unfolding statement with_status
build_status_rollups b tx = statement (λ d. (tt, with_status b.upload_id d)) tx

-- `BuildRollups`
unfoldable pub build_rollups : IngestBatch → Db → Exec Error (Unit {0} × Db)
unfolding build_grain build_status_rollups
build_rollups b tx = do
  (_, by_minute) ← build_grain b Grain.minute tx
  (_, by_hour) ← build_grain b Grain.hour by_minute
  build_status_rollups b by_hour

abbrev pub with_upload : Upload → Db → Db
with_upload u d = record d { uploads = d.uploads ++ u ∷ [] }

-- `CreateUpload`
unfoldable pub create_upload : Upload → Db → Exec Error (Unit {0} × Db)
unfolding statement
create_upload u tx = statement (λ d. (tt, with_upload u d)) tx

-- `Begin`, and the transaction's `Commit`.
unfoldable pub begin : Exec Error Db
begin = select λ w. ok w.db

unfoldable pub commit : Db → Exec Error (Unit {0})
commit tx = update λ w. ok (tt, tx)
