-- ===== src/Observability/Lines.antt =====
-- The line that is logged tells the status that the client was sent.
use log_monitor_tenex.Prelude.{
  ℕ, Text, true, none, some, List, [], ◌∷◌, ◌≡◌, ◌⊎◌, refl, arith, inl, inr, Bool-cases, leb,
  leb→le, ◌≤◌, ◌<◌,
}
use log_monitor_tenex.Filters.{Method}
use log_monitor_tenex.Observability.{
  Event, write_header, write, fresh_writer, note, note_all, Severity, error, warn, info, LogLine,
  logged, line_for, is_skipped, severity_of,
}

-- What net/http sends: the status of the first `WriteHeader`, 200 where a body comes first or the
-- handler does nothing.
abbrev pub sent : List Event → ℕ
sent [] = 200
sent (write_header code ∷ es) = code
sent (write ∷ es) = 200

noted_stays :
    (es : List Event) (code : ℕ)
    → note_all es (record { status = code; wrote = true }) ≡ record { status = code; wrote = true }
unfolding note_all note
noted_stays [] code = refl
noted_stays (write_header other ∷ es) code = noted_stays es code
noted_stays (write ∷ es) code = noted_stays es code

status-sent : (es : List Event) → (note_all es fresh_writer).status ≡ sent es
unfolding note_all note
status-sent [] = refl
status-sent (write_header code ∷ es) = rw (noted_stays es code) refl
status-sent (write ∷ es) = rw (noted_stays es 200) refl

-- The severity that a status calls for.
abbrev pub Fits : ℕ → Severity → Type 0
Fits status error = 500 ≤ status
Fits status warn = (400 ≤ status) × (status < 500)
Fits status info = status < 400
Fits status other = ⊥

severity_of-Fits : (status : ℕ) → Fits status (severity_of status)
unfolding severity_of
severity_of-Fits status = elim (Bool-cases (leb 500 status)) [
  | inl e ↦ rw e (leb→le 500 status e)
  | inr e ↦ elim (Bool-cases (leb 400 status)) [
    | inl f ↦ rw (e, f) (leb→le 400 status f, ground (arith, e))
    | inr f ↦ rw (e, f) (ground (arith, f))
  ]
]

-- Health and metrics are not logged. For any other request, whatever its handler writes, the line
-- has the status that the client was sent, at the severity that this calls for.
pub logged_lem :
    (brought new : Text) (method : Method) (path pattern : Text) (events : List Event)
    → ((is_skipped path ≡ true) × (logged brought new method path pattern events ≡ none))
      ⊎ ((line : LogLine) × (logged brought new method path pattern events ≡ some line)
          × (line.status ≡ sent events)
          × Fits (sent events) line.level)
unfolding logged line_for
logged_lem brought new method path pattern events = elim (Bool-cases (is_skipped path)) [
  | inl e ↦ inl (e, rw e refl)
  | inr e ↦
      let told = status-sent events in
      inr (
        line_for brought new method path pattern events,
        rw e refl,
        told,
        rw told (severity_of-Fits (sent events)),
      )
]
