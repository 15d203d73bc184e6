-- ===== src/Observability.antt =====
-- backend/gateway/internal/obs/obs.go: the line that is logged for a request. Durations, the
-- format of the log and the context that carries the request id are left out.
pub mod Lines
use log_monitor_tenex.Prelude.{
  ℕ, Text, codes, text_eq, Bool, true, false, Option, none, some, List, [], ◌∷◌, ◌||◌, leb,
  if◌then◌else◌,
}
use log_monitor_tenex.Parser.{is_empty}
use log_monitor_tenex.Http.{Response}
use log_monitor_tenex.Filters.{Method}

pub data Severity : Type 0 where
  debug info warn error : Severity

-- `NewLogger`: the least severity that is written.
unfoldable pub log_level : Text → Severity
log_level s =
    if text_eq s (codes "DEBUG") || text_eq s (codes "debug")
    then debug
    else if text_eq s (codes "WARNING") || text_eq s (codes "warn")
    then warn
    else info

-- `statusWriter`
pub record StatusWriter : Type 0 where
  pub status : ℕ
  pub wrote : Bool

-- What a handler does with its `ResponseWriter`: `WriteHeader` with a status, or `Write`.
pub data Event : Type 0 where
  write_header : ℕ → Event
  write : Event

-- One call: only the first is noted, and a body without a header means 200.
unfoldable pub note : Event → StatusWriter → StatusWriter
note (write_header code) w = if w.wrote then w else record { status = code; wrote = true }
note write w = if w.wrote then w else record { status = 200; wrote = true }

unfoldable pub note_all : List Event → StatusWriter → StatusWriter
unfolding note
note_all [] w = w
note_all (e ∷ es) w = note_all es (note e w)

-- The writer that a request starts with.
abbrev pub fresh_writer : StatusWriter
fresh_writer = record { status = 200; wrote = false }

-- The line of a request.
pub record LogLine : Type 0 where
  pub level : Severity
  pub request_id : Text
  pub method : Method
  pub route : Text
  pub status : ℕ

unfoldable pub severity_of : ℕ → Severity
severity_of status = if leb 500 status then error else if leb 400 status then warn else info

-- The paths that are not logged.
unfoldable pub is_skipped : Text → Bool
is_skipped path = text_eq path (codes "/api/health") || text_eq path (codes "/api/metrics")

-- The id that a request brings, or a new one.
unfoldable pub request_id : Text → Text → Text
request_id brought new = if is_empty brought then new else brought

unfoldable pub line_for : Text → Text → Method → Text → Text → List Event → LogLine
unfolding note_all severity_of request_id
line_for brought new method path pattern events =
    let status = (note_all events fresh_writer).status in
    record {
      level = severity_of status;
      request_id = request_id brought new;
      method = method;
      route = if is_empty pattern then path else pattern;
      status = status;
    }

-- `Middleware`, after the handler: the id, the method, the path, the pattern of the route that the
-- mux found, if any, and what the handler wrote.
unfoldable pub logged : Text → Text → Method → Text → Text → List Event → Option LogLine
unfolding line_for is_skipped
logged brought new method path pattern events =
    if is_skipped path then none else some (line_for brought new method path pattern events)

-- The calls of `httpx.JSON` for a response.
abbrev pub events_of : Response → List Event
events_of r = write_header r.status ∷ write ∷ []
