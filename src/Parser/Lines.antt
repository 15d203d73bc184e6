-- ===== src/Parser/Lines.antt =====
-- A file of plain rows: one entry for each line after the header, in order, with the line itself.
use log_monitor_tenex.Prelude.{
  ◌⊎◌, Option-cases, inl, inr, ℕ, suc, Text, true, Option, none, some, List, [], ◌∷◌, ◌≡◌, refl, ap,
  ◌<◌, arith, length, all, map, join, take,
}
use log_monitor_tenex.Parser.{Entry, ReadError, Answer, row}
use log_monitor_tenex.Parser.Csv.{file, head_bytes}
use log_monitor_tenex.Parser.Csv.RoundTrip.{is_separator, is_plain_row, written, read_text-written}
use log_monitor_tenex.Parser.Zscaler.Header.{
  Field, Columns, build_column_map, detect_delimiter, first_line,
}
use log_monitor_tenex.Parser.Zscaler.Values.{Formats, build_entry}
use log_monitor_tenex.Parser.Zscaler.{Parsing, parse, entry_of}
use log_monitor_tenex.Parser.Runs.{entries_of, emit_all, outcome, parse_lem}

-- The numbers of lines, from one on.
abbrev pub numbered : ℕ → List (List Text) → List ℕ
numbered n [] = []
numbered n (r ∷ rows) = n ∷ numbered (suc n) rows

length-map {ℓ k} :
    {A : Type ℓ} {B : Type k} (f : A → B) (xs : List A) → length (map f xs) ≡ length xs
length-map f [] = refl
length-map f (x ∷ xs) = ap suc (length-map f xs)

module _ (formats : Formats) (cols : Columns) (comma : ℕ) where
  raws :
      (line : ℕ) (rows : List (List Text))
      → map (λ (e : Entry). e.raw) (entries_of formats cols comma line (map row rows))
        ≡ map (join comma) rows
  unfolding entry_of build_entry
  raws line [] = refl
  raws line (r ∷ rows) = ap (λ (rs : List Text). join comma r ∷ rs) (raws (suc line) rows)

  numbers :
      (line : ℕ) (rows : List (List Text))
      → map (λ (e : Entry). e.line_no) (entries_of formats cols comma line (map row rows))
        ≡ numbered line rows
  unfolding entry_of build_entry
  numbers line [] = refl
  numbers line (r ∷ rows) = ap (λ (rs : List ℕ). line ∷ rs) (numbers (suc line) rows)

  pub length-entries_of :
      (line : ℕ) (answers : List Answer)
      → length (entries_of formats cols comma line answers) ≡ length answers
  length-entries_of line [] = refl
  length-entries_of line (a ∷ answers) = ap suc (length-entries_of (suc line) answers)

module _ {S : Type 0} where
  -- The entries reached `emit` in order, up to its first failure; where it did not fail, they were
  -- counted with the header.
  abbrev pub HandsOn :
      (Entry → S → S × Option ReadError) → S → List Entry → Option (Parsing S) → Type 0
  HandsOn emit s entries r =
      (p : Parsing S) × (r ≡ some p)
      × (outcome p ≡ emit_all emit entries s)
      × (((p.error ≡ none) × (p.stats.line_count ≡ suc (length entries)))
          ⊎ ((e : ReadError) × (p.error ≡ some e)))

-- A file of plain rows, the header among them, under a separator that the first line shows: with
-- more fuel than rows `Parse` ends, and the entries that it hands on are one for each row after the
-- header, in order, numbered from 2, with the row's own line as the raw text. `emit` gets them up to
-- its first failure; where it does not fail, the line count is that of the rows and the header.
pub parse_plain_file :
    (formats : Formats) (comma fuel : ℕ) (order : List Field) (header : List Text)
    (rows : List (List Text)) {S : Type 0} (emit : Entry → S → S × Option ReadError) (s : S)
    → is_separator comma ≡ true
    → all (is_plain_row comma) (header ∷ rows) ≡ true
    → detect_delimiter (first_line (take head_bytes (written comma (header ∷ rows)))) ≡ comma
    → length rows < fuel
    → (entries : List Entry) × (map (λ (e : Entry). e.raw) entries ≡ map (join comma) rows)
      × (map (λ (e : Entry). e.line_no) entries ≡ numbered 2 rows)
      × HandsOn emit s entries
          (parse formats emit fuel order (file (written comma (header ∷ rows))) s)
unfolding file
parse_plain_file formats comma fuel order header rows emit s good plain shown enough =
    let cols = build_column_map order header in
    let (p, returned, same, counts) =
      parse_lem formats emit fuel comma order header (map row rows)
        (file (written comma (header ∷ rows))) s
        (refl, shown, read_text-written comma good (header ∷ rows) plain)
        (omega (arith, length-map row rows)) in
    (
      entries_of formats cols comma 2 (map row rows),
      raws formats cols comma 2 rows,
      numbers formats cols comma 2 rows,
      (
        p,
        returned,
        same,
        elim (Option-cases p.error) [
          | inl e ↦ inl (
            e,
            omega (arith, (counts e).0, length-entries_of formats cols comma 2 (map row rows)),
          )
          | inr e ↦ inr e
        ],
      ),
    )
