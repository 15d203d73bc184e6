-- ===== src/Parser/Csv.antt =====
-- encoding/csv as zscaler.go sets it up: any width of rows, `LazyQuotes`, no comments.
--
-- `readLine` and `readRecord` are one machine here, which reads a whole text byte by byte: it is
-- before a record, at the start of a field, in a plain field, in a quoted field, or just behind a
-- quote in one. With `LazyQuotes` no text is malformed, so every answer is a record.
pub mod RoundTrip
use log_monitor_tenex.Prelude.{
  ℕ, Text, Bool, true, false, Option, none, some, List, [], ◌∷◌, ◌++◌, map, ◌==◌, if◌then◌else◌,
  take, length, ◌*◌,
}
use log_monitor_tenex.Parser.{Answer, row, Source, Stream}

pub data Mode : Type 0 where
  between at_field in_plain in_quoted behind_quote : Mode

abbrev pub newline : ℕ
newline = 10

abbrev pub carriage_return : ℕ
carriage_return = 13

abbrev pub quote : ℕ
quote = 34

-- The end of each line as `readLine` hands it on: `\r\n` is `\n`, and a `\r` at the end of the file
-- is dropped.
unfoldable pub plain_lines : Text → Text
plain_lines [] = []
plain_lines (c ∷ []) = if c == carriage_return then [] else c ∷ []
plain_lines (c ∷ d ∷ s) =
    let rest = plain_lines (d ∷ s) in
    if c == carriage_return then (if d == newline then rest else c ∷ rest) else c ∷ rest

-- A field in its making, and the fields before it.
abbrev pub closed : List Text → Text → List Text
closed fields field = fields ++ field ∷ []

module _ (comma : ℕ) where
  -- The records of a text, from a mode with the fields so far and the field at hand.
  unfoldable pub records : Mode → List Text → Text → Text → List (List Text)
  records between fields field [] = []
  records at_field fields field [] = closed fields field ∷ []
  records in_plain fields field [] = closed fields field ∷ []
  records in_quoted fields field [] = closed fields field ∷ []
  records behind_quote fields field [] = closed fields field ∷ []
  records between fields field (c ∷ s) = elim (c == newline) [
    | true ↦ records between [] [] s
    | false ↦ elim (c == quote) [
      | true ↦ records in_quoted [] [] s
      | false ↦ elim (c == comma) [
        | true ↦ records at_field ([] ∷ []) [] s
        | false ↦ records in_plain [] (c ∷ []) s
      ]
    ]
  ]
  records at_field fields field (c ∷ s) = elim (c == newline) [
    | true ↦ closed fields [] ∷ records between [] [] s
    | false ↦ elim (c == quote) [
      | true ↦ records in_quoted fields [] s
      | false ↦ elim (c == comma) [
        | true ↦ records at_field (closed fields []) [] s
        | false ↦ records in_plain fields (c ∷ []) s
      ]
    ]
  ]
  records in_plain fields field (c ∷ s) = elim (c == newline) [
    | true ↦ closed fields field ∷ records between [] [] s
    | false ↦ elim (c == comma) [
      | true ↦ records at_field (closed fields field) [] s
      | false ↦ records in_plain fields (field ++ c ∷ []) s
    ]
  ]
  records in_quoted fields field (c ∷ s) = elim (c == quote) [
    | true ↦ records behind_quote fields field s
    | false ↦ records in_quoted fields (field ++ c ∷ []) s
  ]
  records behind_quote fields field (c ∷ s) = elim (c == quote) [
    | true ↦ records in_quoted fields (field ++ quote ∷ []) s
    | false ↦ elim (c == comma) [
      | true ↦ records at_field (closed fields field) [] s
      | false ↦ elim (c == newline) [
        | true ↦ closed fields field ∷ records between [] [] s
        | false ↦ records in_quoted fields (field ++ quote ∷ c ∷ []) s
      ]
    ]
  ]

-- The answers on a text that ends with `io.EOF`.
unfoldable pub read_text : Text → ℕ → Source
unfolding records plain_lines
read_text s comma = record {
  answers = map row (records comma between [] [] (plain_lines s));
  ending = none;
}

abbrev pub head_bytes : ℕ
head_bytes = 64 * 1024

-- A file that arrives without an error: `HeadReader` peeks its first bytes.
unfoldable pub file : Text → Stream
unfolding read_text
file s = record {
  head = take head_bytes s;
  head_error = none;
  source = read_text s;
  size = length s;
}
