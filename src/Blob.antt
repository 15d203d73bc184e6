-- ===== src/Blob.antt =====
-- backend/gateway/internal/blob: the archive behind one interface, in S3 and in Google Cloud Storage.
-- The clients of the two services are parameters, as functions on a state of the service; an error is
-- a text, and the absence of one is `none`.
pub mod Absence
use log_monitor_tenex.Prelude.{String, Text, Bool, true, false, Option, none, some}

-- cloud.google.com/go/storage: `ErrObjectNotExist`, or another error.
pub data GcsError : Type 0 where
  not_exist : GcsError
  other : Text → GcsError

-- The client of a bucket: `NewWriter` with a content type and the copying into it, `Close` of that
-- writer, `NewReader`, `Delete` and `Attrs`.
pub record GcsClient (S : Type 0) : Type 0 where
  pub copy : Text → Text → String → Text → S → Option Text × S
  pub close : Text → Text → S → Option Text × S
  pub reader : Text → Text → S → Option Text
  pub delete : Text → Text → S → Option GcsError × S
  pub attrs : Text → S → Option Text

-- minio-go: `PutObject` of unknown size with a content type, `GetObject`, `RemoveObject`, and
-- `BucketExists`, whose error comes with no answer.
pub data Existence : Type 0 where
  unknown : Text → Existence
  known : Bool → Existence

pub record S3Client (S : Type 0) : Type 0 where
  pub put_object : Text → Text → Text → String → S → Option Text × S
  pub get_object : Text → Text → S → Option Text
  pub remove_object : Text → Text → S → Option Text × S
  pub bucket_exists : Text → S → Existence

abbrev content_type : String
content_type = "application/zstd"

-- `Delete` of the one error that is none.
abbrev pub folded : Option GcsError → Option GcsError
folded none = none
folded (some not_exist) = none
folded (some (other e)) = some (other e)

-- What `Ping` complains of.
pub data PingError : Type 0 where
  unreachable : Text → Text → PingError
  no_bucket : Text → PingError
  failed : Text → PingError

module _ {S : Type 0} where
  -- `Put` of `gcsStore`: the writer is closed when the copying fails, too, and that error stands.
  unfoldable pub gcs_put : GcsClient S → Text → Text → Text → S → Option Text × S
  gcs_put client bucket key body s =
      let (copied, s1) = client.copy bucket key content_type body s in
      let (closed, s2) = client.close bucket key s1 in
      elim copied [ none ↦ (closed, s2) | some e ↦ (some e, s2) ]

  -- `Get` of `gcsStore`
  unfoldable pub gcs_get : GcsClient S → Text → Text → S → Option Text
  gcs_get client bucket key s = client.reader bucket key s

  -- `Delete` of `gcsStore`
  unfoldable pub gcs_delete : GcsClient S → Text → Text → S → Option GcsError × S
  gcs_delete client bucket key s = let (e, s') = client.delete bucket key s in (folded e, s')

  -- `Ping` of `gcsStore`
  unfoldable pub gcs_ping : GcsClient S → Text → S → Option PingError
  gcs_ping client bucket s = elim (client.attrs bucket s) [
    | none ↦ none
    | some e ↦ some (unreachable bucket e)
  ]

  -- `Put` of `s3Store`
  unfoldable pub s3_put : S3Client S → Text → Text → Text → S → Option Text × S
  s3_put client bucket key body s = client.put_object bucket key body content_type s

  -- `Get` of `s3Store`
  unfoldable pub s3_get : S3Client S → Text → Text → S → Option Text
  s3_get client bucket key s = client.get_object bucket key s

  -- `Delete` of `s3Store`
  unfoldable pub s3_delete : S3Client S → Text → Text → S → Option Text × S
  s3_delete client bucket key s = client.remove_object bucket key s

  -- `Ping` of `s3Store`
  unfoldable pub s3_ping : S3Client S → Text → S → Option PingError
  s3_ping client bucket s = elim (client.bucket_exists bucket s) [
    | unknown e ↦ some (failed e)
    | known false ↦ some (no_bucket bucket)
    | known true ↦ none
  ]
