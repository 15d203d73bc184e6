-- ===== src/Parser/Zscaler/Values.antt =====
-- backend/gateway/internal/parser/zscaler/zscaler.go: the cells of a row, and the entry they make.
--
-- `strconv.ParseInt`, `strconv.ParseFloat`, `time.Parse`, `time.Unix`, `netip.ParseAddr` and
-- the `Format` of a day are the operations of `Formats`.
use log_monitor_tenex.Prelude.{
  ℕ, Text, codes, text_eq, Bool, Option, none, some, List, [], ◌∷◌, map, any, ◌==◌, ltb,
  if◌then◌else◌, before, join, get_elem?, trim, trim_space, to_upper, ◌/◌, ◌^◌,
}
use log_monitor_tenex.Parser.{Entry, is_empty}
use log_monitor_tenex.Parser.Zscaler.Header.{Field, Columns, column_of, texts}

-- A whole number with a sign.
pub data Number : Type 0 where
  at_least below_zero : ℕ → Number

-- What `time.Parse` gives: the moment, whether it is in UTC, and the year.
pub record Stamp : Type 0 where
  pub moment : ℕ
  pub in_utc : Bool
  pub year : ℕ

-- The standard library's readers of numbers, times and addresses. `parse_float` gives the number
-- truncated to an `int64`, `add_years` is `AddDate` with whole years.
pub record Formats : Type 0 where
  pub parse_int : Text → Option Number
  pub parse_float : Text → Option Number
  pub from_unix : Number → ℕ
  pub parse_time : Text → Text → Option Stamp
  pub add_years : ℕ → ℕ → ℕ
  pub this_year : ℕ
  pub parse_addr : Text → Option Text
  pub format_day : ℕ → Text

-- `clean`
abbrev absent_marks : List Text
absent_marks = texts ("-" ∷ "None" ∷ "NA" ∷ "N/A" ∷ [])

unfoldable pub clean : Text → Text
unfolding trim_space trim
clean v =
    let bare = trim (λ c. c == b'"') (trim_space v) in
    if any (text_eq bare) absent_marks then [] else bare

-- `tsLayouts`
unfoldable pub ts_layouts : List Text
ts_layouts = texts (
    "2006-01-02 15:04:05" ∷ "2006-01-02T15:04:05Z07:00" ∷ "2006-01-02T15:04:05Z"
    ∷ "2006-01-02T15:04:05" ∷ "2006/01/02 15:04:05" ∷ "02/Jan/2006:15:04:05 -0700"
    ∷ "Jan _2 15:04:05" ∷ "2006-01-02T15:04:05Z07:00" ∷ [])

-- Milliseconds since the epoch are taken for seconds below a thousand thousand million.
unfoldable pub epoch_seconds : Number → Number
epoch_seconds (at_least n) = at_least (if ltb (10 ^ 12) n then n / 1000 else n)
epoch_seconds (below_zero n) = below_zero n

module _ (formats : Formats) where
  -- A layout without a year puts a time into year 0.
  unfoldable pub dated : Stamp → ℕ
  dated s =
      if s.in_utc
      then (if s.year == 0 then formats.add_years formats.this_year s.moment else s.moment)
      else s.moment

  unfoldable pub by_layouts : Text → List Text → Option ℕ
  unfolding dated
  by_layouts v [] = none
  by_layouts v (layout ∷ rest) = elim (formats.parse_time layout v) [
    | some s ↦ some (dated s)
    | none ↦ by_layouts v rest
  ]

  -- `parseTS`
  unfoldable pub parse_ts : Text → Option ℕ
  unfolding epoch_seconds by_layouts ts_layouts
  parse_ts v = elim (formats.parse_int v) [
    | some n ↦ some (formats.from_unix (epoch_seconds n))
    | none ↦ by_layouts v ts_layouts
  ]

  -- `parseIP`
  unfoldable pub parse_ip : Text → Text
  parse_ip v = elim (formats.parse_addr v) [ some addr ↦ addr | none ↦ [] ]

  -- `parseInt64`, and `parseInt`, which is the same where `int` has 64 bits.
  unfoldable pub parse_int64 : Text → Option ℕ
  parse_int64 v = if is_empty v then none else elim (formats.parse_float v) [
    | some (at_least n) ↦ some n
    | some (below_zero n) ↦ some 0
    | none ↦ none
  ]

  -- What follows `://`, where that occurs.
  unfoldable pub after_scheme : Text → Option Text
  after_scheme [] = none
  after_scheme (c ∷ []) = none
  after_scheme (c ∷ d ∷ []) = none
  after_scheme (c ∷ d ∷ e ∷ s) =
      let rest = after_scheme (d ∷ e ∷ s) in
      if text_eq (c ∷ d ∷ e ∷ []) (codes "://") then some s else rest

  abbrev or_whole : Text → Option Text → Text
  or_whole u none = u
  or_whole u (some s) = s

  -- `hostFromURL`
  unfoldable pub host_from_url : Text → Text
  unfolding after_scheme before
  host_from_url u = before b':' (before b'/' (or_whole u (after_scheme u)))

  -- `cell`: empty where the field has no column or the row is short.
  unfoldable pub cell : List Text → Columns → Field → Text
  unfolding column_of clean
  cell cells cols f = elim (column_of f cols) [
    | none ↦ []
    | some i ↦ elim (get_elem? cells i) [ none ↦ [] | some v ↦ clean v ]
  ]

  abbrev or_host_of : Text → Text → Text
  or_host_of h u = if is_empty h then host_from_url u else h

  -- `buildEntry`
  unfoldable pub build_entry : ℕ → List Text → Columns → ℕ → Entry
  unfolding parse_ts parse_ip parse_int64 host_from_url cell join to_upper
  build_entry line_no cells cols comma =
      let cell_of = cell cells cols in
      record {
        line_no = line_no;
        raw = join comma cells;
        ts = if is_empty (cell_of Field.ts) then none else parse_ts (cell_of Field.ts);
        client_ip =
            if is_empty (cell_of Field.client_ip) then [] else parse_ip (cell_of Field.client_ip);
        username = cell_of Field.username;
        host = or_host_of (cell_of Field.host) (cell_of Field.url);
        url = cell_of Field.url;
        category = cell_of Field.category;
        action = cell_of Field.action;
        req_bytes = parse_int64 (cell_of Field.req_bytes);
        resp_bytes = parse_int64 (cell_of Field.resp_bytes);
        user_agent = cell_of Field.user_agent;
        threat_name = cell_of Field.threat_name;
        resp_code = parse_int64 (cell_of Field.resp_code);
        method = map to_upper (cell_of Field.method);
        latency_ms = parse_int64 (cell_of Field.latency_ms);
        cache_status = cell_of Field.cache_status;
        reason = cell_of Field.reason;
      }
