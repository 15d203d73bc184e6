-- ===== src/Parser/Zscaler.antt =====
-- backend/gateway/internal/parser/zscaler/zscaler.go: `Parse`, which hands every line to what reads
-- the log.
--
-- The loop runs on fuel, one round for each `Read`. `emit` acts on a state of its caller's, and may
-- fail.
pub mod Header
pub mod Lookup
pub mod Values
use log_monitor_tenex.Prelude.{
  ℕ, zero, suc, Text, Bool, Option, none, some, List, [], ◌∷◌, if◌then◌else◌,
}
use log_monitor_tenex.Parser.{
  Entry, Stats, ReadError, Answer, row, failing, Source, Stream, is_parsed,
}
use log_monitor_tenex.Parser.Zscaler.Header.{
  Field, Columns, detect_delimiter, first_line, build_column_map,
}
use log_monitor_tenex.Parser.Zscaler.Values.{Formats, build_entry}

-- The answer of the next `Read`, `none` for `io.EOF`.
unfoldable pub next_answer : Option ReadError → List Answer → Option Answer
next_answer none [] = none
next_answer (some e) [] = some (failing e)
next_answer ending (a ∷ answers) = some a

abbrev pub later : List Answer → List Answer
later [] = []
later (a ∷ answers) = answers

-- A record that could not be read: a line number and nothing else.
unfoldable pub blank : ℕ → Entry
blank line_no = record {
  line_no = line_no;
  raw = [];
  ts = none;
  client_ip = [];
  username = [];
  host = [];
  url = [];
  category = [];
  action = [];
  req_bytes = none;
  resp_bytes = none;
  user_agent = [];
  threat_name = [];
  resp_code = none;
  method = [];
  latency_ms = none;
  cache_status = [];
  reason = [];
}

-- What `Parse` returns, and the state that `emit` leaves.
pub record Parsing (S : Type 0) : Type 0 where
  pub stats : Stats
  pub error : Option ReadError
  pub state : S

abbrev pub count_line : Stats → Stats
count_line st = record st { line_count = suc st.line_count }

abbrev pub count_entry : Entry → Stats → Stats
count_entry e st = record (count_line st) {
  parsed_count = if is_parsed e then suc st.parsed_count else st.parsed_count;
}

module _ (formats : Formats) where
  -- The entry of an answer, and the counts after it.
  unfoldable pub entry_of : Columns → ℕ → ℕ → Answer → Entry
  unfolding blank build_entry
  entry_of cols comma line_no (failing e) = blank line_no
  entry_of cols comma line_no (row cells) = build_entry formats line_no cells cols comma

  unfoldable pub counted : Answer → Entry → Stats → Stats
  unfolding is_parsed
  counted (failing e) entry st = count_line st
  counted (row cells) entry st = count_entry entry st

  module _ {S : Type 0} (emit : Entry → S → S × Option ReadError) where
    -- The loop of `Parse`.
    unfoldable pub parse_loop :
        ℕ → Columns → ℕ → Option ReadError → ℕ → List Answer → Stats → S → Option (Parsing S)
    unfolding next_answer entry_of counted
    parse_loop zero cols comma ending line_no answers st s = none
    parse_loop (suc fuel) cols comma ending line_no answers st s =
        elim (next_answer ending answers) [
          | none ↦ some record { stats = st; error = none; state = s }
          | some a ↦
              let entry = entry_of cols comma line_no a in
              let st' = counted a entry st in
              let (s', failed) = emit entry s in
              elim failed [
                | some e ↦ some record { stats = st'; error = some e; state = s' }
                | none ↦ parse_loop fuel cols comma ending (suc line_no) (later answers) st' s'
              ]
        ]

    -- `Parse` from the header row on, for an order in which Go gives the fields.
    unfoldable pub parse_source : ℕ → List Field → ℕ → Source → S → Option (Parsing S)
    unfolding next_answer parse_loop build_column_map
    parse_source fuel order comma source s =
        let zeros : Stats = record { line_count = 0; parsed_count = 0 } in
        elim (next_answer source.ending source.answers) [
          | none ↦ some record { stats = zeros; error = none; state = s }
          | some (failing e) ↦ some record { stats = zeros; error = some e; state = s }
          | some (row header) ↦
              parse_loop fuel (build_column_map order header) comma source.ending 2
                (later source.answers) (count_line zeros) s
        ]

    -- `Parse`
    unfoldable pub parse : ℕ → List Field → Stream → S → Option (Parsing S)
    unfolding parse_source detect_delimiter first_line
    parse fuel order stream s =
        let comma = detect_delimiter (first_line stream.head) in
        elim stream.head_error [
          | some e ↦ some record {
            stats = record { line_count = 0; parsed_count = 0 };
            error = some e;
            state = s;
          }
          | none ↦ parse_source fuel order comma (stream.source comma) s
        ]
