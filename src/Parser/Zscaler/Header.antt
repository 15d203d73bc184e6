-- ===== src/Parser/Zscaler/Header.antt =====
-- backend/gateway/internal/parser/zscaler/zscaler.go: the header row. Which names a canonical field
-- goes by, whether a file's head looks like one of these logs, and which column holds a field.
use log_monitor_tenex.Prelude.{
  ℕ, suc, String, Text, codes, text_eq, Bool, false, Option, none, some, List, [], ◌∷◌, map, any,
  ◌==◌, ltb, leb, if◌then◌else◌, count_char, before, split, ◌+◌,
}
use log_monitor_tenex.Parser.{normalize, is_empty, is_there}

-- The keys of `fieldAliases`.
pub data Field : Type 0 where
  ts client_ip username host url category action req_bytes : Field
  resp_bytes user_agent threat_name resp_code latency_ms method cache_status reason : Field

abbrev pub all_fields : List Field
all_fields =
    ts ∷ client_ip ∷ username ∷ host ∷ url ∷ category ∷ action ∷ req_bytes ∷ resp_bytes ∷ user_agent
    ∷ threat_name ∷ resp_code ∷ latency_ms ∷ method ∷ cache_status ∷ reason ∷ []

abbrev pub field_number : Field → ℕ
field_number ts = 0
field_number client_ip = 1
field_number username = 2
field_number host = 3
field_number url = 4
field_number category = 5
field_number action = 6
field_number req_bytes = 7
field_number resp_bytes = 8
field_number user_agent = 9
field_number threat_name = 10
field_number resp_code = 11
field_number latency_ms = 12
field_number method = 13
field_number cache_status = 14
field_number reason = 15

abbrev pub same_field : Field → Field → Bool
same_field f g = field_number f == field_number g

abbrev pub texts : List String → List Text
texts names = map codes names

-- `fieldAliases`
unfoldable pub aliases : Field → List Text
aliases ts = texts ("datetime" ∷ "eventtime" ∷ "time" ∷ "timestamp" ∷ "date" ∷ "logtime" ∷ [])
aliases client_ip =
    texts ("clientip" ∷ "clientinternalip" ∷ "cip" ∷ "clientpublicip" ∷ "srcip" ∷ [])
aliases username = texts ("login" ∷ "user" ∷ "username" ∷ "userid" ∷ [])
aliases host = texts ("host" ∷ "hostname" ∷ "serverhost" ∷ [])
aliases url = texts ("url" ∷ "requesturl" ∷ "uri" ∷ [])
aliases category = texts ("urlcategory" ∷ "urlsupercategory" ∷ "urlclass" ∷ "category" ∷ [])
aliases action = texts ("action" ∷ "eventaction" ∷ "policyaction" ∷ [])
aliases req_bytes = texts ("requestsize" ∷ "reqsize" ∷ "sentbytes" ∷ "bytesout" ∷ [])
aliases resp_bytes = texts ("responsesize" ∷ "respsize" ∷ "receivedbytes" ∷ "bytesin" ∷ [])
aliases user_agent = texts ("useragent" ∷ "useragentheader" ∷ "ua" ∷ [])
aliases threat_name = texts ("threatname" ∷ "malwarename" ∷ "threat" ∷ "virusname" ∷ [])
aliases resp_code = texts ("respcode" ∷ "statuscode" ∷ "status" ∷ "httpstatus" ∷ [])
aliases latency_ms =
    texts ("totaltime" ∷ "requesttime" ∷ "responsetime" ∷ "duration" ∷ "timetaken" ∷ [])
aliases method = texts ("requestmethod" ∷ "method" ∷ "httpmethod" ∷ [])
aliases cache_status = texts ("cachehit" ∷ "tcpstatus" ∷ "cachestatus" ∷ "cached" ∷ [])
aliases reason = texts ("reason" ∷ "statusreason" ∷ "blockreason" ∷ "policyreason" ∷ [])

abbrev pub tab : ℕ
tab = 9

-- `detectDelimiter`: the comma, unless another occurs more often.
unfoldable pub detect_delimiter : Text → ℕ
unfolding count_char
detect_delimiter line =
    let commas = count_char b',' line in
    let tabs = count_char tab line in
    let bars = count_char b'|' line in
    if ltb commas tabs
    then (if ltb tabs bars then b'|' else tab)
    else if ltb commas bars
    then b'|'
    else b','

unfoldable pub first_line : Text → Text
unfolding before
first_line head = before 10 head

-- How many fields a cell of the header names.
abbrev names_of : Text → List Field → ℕ
names_of n [] = 0
names_of n (f ∷ fs) = (if any (λ a. text_eq a n) (aliases f) then 1 else 0) + names_of n fs

abbrev known : List Text → ℕ
known [] = 0
known (cell ∷ cells) = names_of (normalize cell) all_fields + known cells

-- `Sniff`
unfoldable pub sniff : Text → Bool
unfolding first_line detect_delimiter split normalize aliases
sniff head =
    let line = first_line head in
    if is_empty line then false else leb 2 (known (split (detect_delimiter line) line))

-- `cols`: a Go map from a field to its column.
pub record Column : Type 0 where
  pub field : Field
  pub index : ℕ

abbrev pub Columns : Type 0
Columns = List Column

unfoldable pub column_of : Field → Columns → Option ℕ
column_of f [] = none
column_of f (c ∷ cols) = if same_field c.field f then some c.index else column_of f cols

unfoldable pub taken : Field → Columns → Bool
unfolding column_of
taken f cols = is_there (column_of f cols)

-- The innermost loop of `buildColumnMap`: the first cell that an alias names.
unfoldable pub scan_names : Field → Text → ℕ → List Text → Columns → Columns
unfolding taken
scan_names f alias i [] cols = cols
scan_names f alias i (n ∷ names) cols =
    let later = scan_names f alias (suc i) names cols in
    if text_eq n alias
    then (if taken f cols then cols else record { field = f; index = i } ∷ cols)
    else later

-- The loop over the aliases of a field, which ends when it has a column.
unfoldable pub scan_aliases : Field → List Text → List Text → Columns → Columns
unfolding scan_names taken
scan_aliases f [] names cols = cols
scan_aliases f (alias ∷ rest) names cols =
    let noted = scan_names f alias 0 names cols in
    let later = scan_aliases f rest names noted in if taken f noted then noted else later

-- The loop over the fields, in whatever order the map gives them.
unfoldable pub scan_fields : List Field → List Text → Columns → Columns
unfolding scan_aliases aliases
scan_fields [] names cols = cols
scan_fields (f ∷ order) names cols = scan_fields order names (scan_aliases f (aliases f) names cols)

-- `buildColumnMap`
unfoldable pub build_column_map : List Field → List Text → Columns
unfolding scan_fields normalize
build_column_map order header = scan_fields order (map normalize header) []
