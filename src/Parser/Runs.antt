-- ===== src/Parser/Runs.antt =====
-- `Parse` ends on every stream that ends, and hands on one entry for each answer.
use mathlib.Core.Path.{subst}
use log_monitor_tenex.Prelude.{
  ℕ, zero, suc, Text, false, Option, none, some, List, [], ◌∷◌, ◌≡◌, refl, ◌<◌, ◌+◌, arith, length,
  if◌then◌else◌, count_if, ◌∙◌, sym, inl, inr, Option-cases,
}
use log_monitor_tenex.Parser.{
  Entry, Stats, ReadError, Answer, row, failing, Source, Stream, is_parsed,
}
use log_monitor_tenex.Parser.Zscaler.Header.{
  Field, Columns, build_column_map, detect_delimiter, first_line,
}
use log_monitor_tenex.Parser.Zscaler.Values.{Formats}
use log_monitor_tenex.Parser.Zscaler.{
  Parsing, parse_loop, entry_of, counted, next_answer, blank, parse, parse_source,
}

module _ (formats : Formats) (cols : Columns) (comma : ℕ) where
  -- One entry for each answer, numbered from a line on.
  abbrev pub entries_of : ℕ → List Answer → List Entry
  entries_of line_no [] = []
  entries_of line_no (a ∷ answers) =
      entry_of formats cols comma line_no a ∷ entries_of (suc line_no) answers

module _ {S : Type 0} (emit : Entry → S → S × Option ReadError) where
  -- Entries handed on in order, up to the first failure.
  unfoldable pub emit_all : List Entry → S → S × Option ReadError
  emit_all [] s = (s, none)
  emit_all (e ∷ es) s =
      let (s', failed) = emit e s in elim failed [ some f ↦ (s', some f) | none ↦ emit_all es s' ]

  pub emit_all-failed :
      (e : Entry) (es : List Entry) (s : S) (f : ReadError)
      → (emit e s).1 ≡ some f
      → emit_all (e ∷ es) s ≡ ((emit e s).0, some f)
  unfolding emit_all
  emit_all-failed e es s f h = rw (emit_all, h) refl

  pub emit_all-went_on :
      (e : Entry) (es : List Entry) (s : S)
      → (emit e s).1 ≡ none
      → emit_all (e ∷ es) s ≡ emit_all es (emit e s).0
  unfolding emit_all
  emit_all-went_on e es s h = rw (emit_all, h) refl

  -- What each entry keeps, all of them keep.
  pub emit_all-keeps :
      (P : S → Type 0)
      → ((e : Entry) (s : S) → P s → P (emit e s).0)
      → (es : List Entry) (s : S) → P s
      → P (emit_all es s).0
  unfolding emit_all
  emit_all-keeps P step [] s h = h
  emit_all-keeps P step (e ∷ es) s h = elim (Option-cases (emit e s).1) [
    | inl q ↦ rw (emit_all, q) (emit_all-keeps P step es (emit e s).0 (step e s h))
    | inr (f, q) ↦ rw (emit_all, q) (step e s h)
  ]

module _ {S : Type 0} (p : Parsing S) where
  abbrev pub outcome : S × Option ReadError
  outcome = (p.state, p.error)

pub blank-is_parsed : (n : ℕ) → is_parsed (blank n) ≡ false
unfolding is_parsed blank
blank-is_parsed n = refl

module _ (formats : Formats) (cols : Columns) (comma : ℕ) {S : Type 0}
    (emit : Entry → S → S × Option ReadError) where
  abbrev pub Done : List Answer → ℕ → Stats → S → Option (Parsing S) → Type 0
  Done answers line_no st s r =
      (p : Parsing S) × (r ≡ some p)
      × (outcome p ≡ emit_all emit (entries_of formats cols comma line_no answers) s)
      × (p.error ≡ none
          → (p.stats.line_count ≡ length answers + st.line_count)
            × (p.stats.parsed_count
                ≡ count_if is_parsed (entries_of formats cols comma line_no answers)
                  + st.parsed_count))

  counted-line :
      (a : Answer) (entry : Entry) (st : Stats)
      → (counted formats a entry st).line_count ≡ suc st.line_count
  unfolding counted
  counted-line (row cells) entry st = refl
  counted-line (failing e) entry st = refl

  counted-parsed :
      (line_no : ℕ) (a : Answer) (st : Stats)
      → (counted formats a (entry_of formats cols comma line_no a) st).parsed_count ≡ (
          if is_parsed (entry_of formats cols comma line_no a)
          then suc st.parsed_count
          else st.parsed_count)
  unfolding counted entry_of is_parsed blank
  counted-parsed line_no (row cells) st = refl
  counted-parsed line_no (failing e) st = refl

  pub parse_loop_lem :
      (fuel line_no : ℕ) (answers : List Answer) (st : Stats) (s : S)
      → length answers < fuel
      → Done answers line_no st s
          (parse_loop formats emit fuel cols comma none line_no answers st s)
  unfolding parse_loop emit_all next_answer
  parse_loop_lem zero line_no answers st s h = elim h [ ]
  parse_loop_lem (suc fuel) line_no [] st s h =
      (record { stats = st; error = none; state = s }, refl, refl, λ e. (omega arith, omega arith))
  parse_loop_lem (suc fuel) line_no (a ∷ answers) st s h =
      let entry = entry_of formats cols comma line_no a in
      let st' = counted formats a entry st in
      elim (Option-cases (emit entry s).1) [
        | inr (e, failed) ↦ (
          record { stats = st'; error = some e; state = (emit entry s).0 },
          rw failed refl,
          rw failed refl,
          λ q. cc,
        )
        | inl went_on ↦
            let (p, returned, same, counts) =
              parse_loop_lem fuel (suc line_no) answers st' (emit entry s).0 (omega arith) in
            (
              p,
              rw went_on returned,
              rw went_on same,
              λ q. (
                omega (arith, (counts q).0, counted-line a entry st),
                ground (arith, (counts q).1, counted-parsed line_no a st),
              ),
            )
      ]

-- A stream that is read from a header on: it can be peeked, and its first answer is a row.
abbrev pub Begins : ℕ → List Text → List Answer → Option ReadError → Stream → Type 0
Begins comma header answers ending stream =
    (stream.head_error ≡ none)
    × (detect_delimiter (first_line stream.head) ≡ comma)
    × (stream.source comma ≡ record { answers = row header ∷ answers; ending = ending })

module _ (formats : Formats) {S : Type 0} (emit : Entry → S → S × Option ReadError) where
  peeked-parse :
      (fuel comma : ℕ) (order : List Field) (source : Source) (stream : Stream) (s : S)
      → stream.head_error ≡ none
      → detect_delimiter (first_line stream.head) ≡ comma
      → stream.source comma ≡ source
      → parse formats emit fuel order stream s ≡ parse_source formats emit fuel order comma source s
  unfolding parse
  peeked-parse fuel comma order source stream s peeked delimited from =
      ground (arith, peeked, delimited, from)

  Begins-parse :
      (fuel comma : ℕ) (order : List Field) (header : List Text) (answers : List Answer)
      (ending : Option ReadError) (stream : Stream) (s : S)
      → Begins comma header answers ending stream
      → parse formats emit fuel order stream s
        ≡ parse_loop formats emit fuel
            (build_column_map order header)
            comma
            ending
            2
            answers
            record { line_count = 1; parsed_count = 0 }
            s
  unfolding parse_source next_answer
  Begins-parse fuel comma order header answers ending stream s (peeked, delimited, from) =
      peeked-parse fuel comma order record { answers = row header ∷ answers; ending = ending }
        stream s peeked delimited from

  pub parse_lem :
      (fuel comma : ℕ) (order : List Field) (header : List Text) (answers : List Answer)
      (stream : Stream) (s : S)
      → Begins comma header answers none stream
      → length answers < fuel
      → Done formats
          (build_column_map order header)
          comma
          emit
          answers
          2
          record { line_count = 1; parsed_count = 0 }
          s
          (parse formats emit fuel order stream s)
  parse_lem fuel comma order header answers stream s h enough =
      subst
        (λ (r : Option (Parsing S)).
          Done formats (build_column_map order header) comma emit answers 2
            record { line_count = 1; parsed_count = 0 } s r)
        (sym (Begins-parse fuel comma order header answers none stream s h))
        (parse_loop_lem formats (build_column_map order header) comma emit fuel 2 answers
          record { line_count = 1; parsed_count = 0 } s enough)

  -- An ending that is an error and not `io.EOF`, where nothing that is kept makes `emit` fail.
  module _ (P : S → Type 0)
      (fine : (e : Entry) (s : S) → P s → ((emit e s).1 ≡ none) × P (emit e s).0)
      (broken : ReadError) where
    parse_loop-goes_on :
        (fuel : ℕ) (cols : Columns) (comma line_no : ℕ) (answers : List Answer) (st : Stats) (s : S)
        → P s
        → parse_loop formats emit fuel cols comma (some broken) line_no answers st s ≡ none
    unfolding parse_loop next_answer
    parse_loop-goes_on zero cols comma line_no answers st s h = refl
    parse_loop-goes_on (suc fuel) cols comma line_no [] st s h =
        let entry = entry_of formats cols comma line_no (failing broken) in
        rw (fine entry s h).0 (
          parse_loop-goes_on fuel cols comma (suc line_no) []
            (counted formats (failing broken) entry st) (emit entry s).0 (fine entry s h).1)
    parse_loop-goes_on (suc fuel) cols comma line_no (a ∷ answers) st s h =
        let entry = entry_of formats cols comma line_no a in
        rw (fine entry s h).0 (
          parse_loop-goes_on fuel cols comma (suc line_no) answers (counted formats a entry st)
            (emit entry s).0 (fine entry s h).1)

    pub parse-goes_on :
        (fuel comma : ℕ) (order : List Field) (header : List Text) (answers : List Answer)
        (stream : Stream) (s : S)
        → P s
        → Begins comma header answers (some broken) stream
        → parse formats emit fuel order stream s ≡ none
    parse-goes_on fuel comma order header answers stream s held h =
        Begins-parse fuel comma order header answers (some broken) stream s h
        ∙ parse_loop-goes_on fuel (build_column_map order header) comma 2 answers
            record { line_count = 1; parsed_count = 0 } s held
