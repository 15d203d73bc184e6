-- ===== src/Parser.antt =====
-- backend/gateway/internal/parser/parser.go: canonical entries, and the seam between a format and
-- what reads it.
--
-- A stream is seen as `Parse` sees it: the bytes that `HeadReader` peeks, and the answers of the
-- `csv.Reader` on it, one for each `Read`, with the one that it gives for ever after the last. An
-- `io.Reader` that has failed for good is one whose last answer is an error and not `io.EOF`.
pub mod Csv
pub mod Lines
pub mod Registry
pub mod Runs
pub mod Zscaler
use log_monitor_tenex.Prelude.{
  ℕ, zero, suc, Text, codes, text_eq, Bool, true, false, not, Option, none, some, List, [], ◌∷◌,
  map, ◌||◌, keep_if, if◌then◌else◌, trim_space, to_lower, leb, ◌&&◌,
}

-- A time is a number that grows with it; a missing value is `none`, a missing text is empty.
pub record Entry : Type 0 where
  pub line_no : ℕ
  pub raw : Text
  pub ts : Option ℕ
  pub client_ip : Text
  pub username : Text
  pub host : Text
  pub url : Text
  pub category : Text
  pub action : Text
  pub req_bytes : Option ℕ
  pub resp_bytes : Option ℕ
  pub user_agent : Text
  pub threat_name : Text
  pub resp_code : Option ℕ
  pub method : Text
  pub latency_ms : Option ℕ
  pub cache_status : Text
  pub reason : Text

abbrev pub is_there : Option ℕ → Bool
is_there none = false
is_there (some _) = true

abbrev pub is_empty : Text → Bool
is_empty [] = true
is_empty (c ∷ s) = false

-- `Parsed`
unfoldable pub is_parsed : Entry → Bool
is_parsed e = is_there e.ts || not (is_empty e.client_ip)

pub record Stats : Type 0 where
  pub line_count : ℕ
  pub parsed_count : ℕ

-- The errors of reading and of storing that `Parse` passes on.
pub data ReadError : Type 0 where
  too_large broken_stream storage_failed : ReadError

-- An answer of the `csv.Reader`: a record, or an error that is not `io.EOF`.
pub data Answer : Type 0 where
  row : List Text → Answer
  failing : ReadError → Answer

-- The answers, and the last one, `none` for `io.EOF`.
pub record Source : Type 0 where
  pub answers : List Answer
  pub ending : Option ReadError

-- A stream: what is peeked, or the error of peeking, the answers for a `Comma`, and the number of
-- bytes that are read in all.
pub record Stream : Type 0 where
  pub head : Text
  pub head_error : Option ReadError
  pub source : ℕ → Source
  pub size : ℕ

-- `Normalize`
unfoldable pub is_alphanumeric : ℕ → Bool
is_alphanumeric c = (leb b'a' c && leb c b'z') || (leb b'0' c && leb c b'9')

unfoldable pub normalize : Text → Text
unfolding is_alphanumeric trim_space to_lower
normalize name = keep_if is_alphanumeric (map to_lower (trim_space name))
