-- ===== src/Filters/Gates.antt =====
-- Which requests reach the handlers.
use log_monitor_tenex.Prelude.{
  suc, Text, Bool, true, false, not, Option, none, some, ◌≡◌, ◌⊎◌, refl, ◌&&◌, ◌||◌, text_eq, arith,
  Bool-cases, Option-cases, inl, inr,
}
use log_monitor_tenex.Parser.{is_empty}
use log_monitor_tenex.Api.{Api}
use log_monitor_tenex.Http.{Handler, failure, serve}
use log_monitor_tenex.World.{World, pure, ◌>>=◌}
use log_monitor_tenex.Filters.{
  Request, Edge, is_exempt, is_safe, kept_token, random_for, knows, ensure_csrf_cookie, csrf,
  basic_auth, gated,
}

-- The token that a request has to echo: the one in its cookie, or one that is drawn now.
abbrev pub expected : Option Text → Option Text → Option Text
expected (some c) drawn = some c
expected none drawn = drawn

abbrev pub echoes : Text → Option Text → Bool
echoes header none = false
echoes header (some token) = not (is_empty header) && text_eq header token

-- Past the first gate: it is off, the path is exempt, or the credentials are right.
abbrev pub lets_in : Api → Edge → Request → Bool
lets_in api edge req = not edge.enabled || is_exempt req.path || knows api edge req.credentials

-- Past the second: the request changes nothing, the path is exempt, or the token is echoed.
abbrev pub is_own : Edge → Request → World → Bool
is_own edge req w =
    is_safe req.method
    || is_exempt req.path
    || echoes req.csrf_header (expected (kept_token req.csrf_cookie) (random_for edge w))

-- The world that the handler meets: a token may have been drawn.
abbrev pub drawn_in : Option Text → World → World
drawn_in (some c) w = w
drawn_in none w = record w { fresh = suc w.fresh }

abbrev pub handled_in : Request → World → World
handled_in req w = drawn_in (kept_token req.csrf_cookie) w

module _ (edge : Edge) (req : Request) (next : Handler) (w : World) where
  abbrev Passed : Type 0
  Passed =
      ((serve (csrf edge req next) w).1 ≡ (serve next (handled_in req w)).1)
      × ((serve (csrf edge req next) w).0.status ≡ (serve next (handled_in req w)).0.status)
      × ((serve (csrf edge req next) w).0.body ≡ (serve next (handled_in req w)).0.body)

  csrf-passes : is_own edge req w ≡ true → Passed
  unfolding csrf serve ensure_csrf_cookie ◌>>=◌
  csrf-passes h = elim (Option-cases (kept_token req.csrf_cookie)) [
    | inr (c, e) ↦ (ground (arith, e, h), ground (arith, e, h), ground (arith, e, h))
    | inl e ↦ elim (Option-cases (random_for edge w)) [
      | inr (t, f) ↦ (ground (arith, e, f, h), ground (arith, e, f, h), ground (arith, e, f, h))
      | inl f ↦ (ground (arith, e, f, h), ground (arith, e, f, h), ground (arith, e, f, h))
    ]
  ]

  csrf-refuses :
      is_own edge req w ≡ false
      → ((serve (csrf edge req next) w).0.status ≡ 403)
        × ((serve (csrf edge req next) w).1 ≡ handled_in req w)
  unfolding csrf serve ensure_csrf_cookie ◌>>=◌
  csrf-refuses h = elim (Option-cases (kept_token req.csrf_cookie)) [
    | inr (c, e) ↦ (ground (arith, e, h), ground (arith, e, h))
    | inl e ↦ elim (Option-cases (random_for edge w)) [
      | inr (t, f) ↦ (ground (arith, e, f, h), ground (arith, e, f, h))
      | inl f ↦ (ground (arith, e, f, h), ground (arith, e, f, h))
    ]
  ]

module _ (api : Api) (edge : Edge) (req : Request) (next : Handler) where
  past_gate : lets_in api edge req ≡ true → gated api edge req next ≡ csrf edge req next
  unfolding gated basic_auth
  past_gate h = ground (arith, h)

  at_gate :
      lets_in api edge req ≡ false
      → gated api edge req next ≡ pure (failure 401 "Not authenticated")
  unfolding gated basic_auth
  at_gate h = ground (arith, h)

challenged :
    {w : World}
    → ((serve (pure (failure 401 "Not authenticated")) w).0.status ≡ 401)
      × ((serve (pure (failure 401 "Not authenticated")) w).1 ≡ w)
unfolding serve ◌>>=◌
challenged = (refl, refl)

-- Every request falls under one of three cases. It passes the first gate and is the browser's own by
-- the second: it is handled, in the world as it is but for a token that may have been drawn, with
-- the handler's status and body. It does not pass the first: the answer is 401 and nothing changes.
-- It is not the browser's own: the answer is 403 and nothing changes but for such a draw.
pub gated_lem :
    (api : Api) (edge : Edge) (req : Request) (next : Handler) (w : World)
    → (((lets_in api edge req && is_own edge req w) ≡ true)
        × ((serve (gated api edge req next) w).1 ≡ (serve next (handled_in req w)).1)
        × ((serve (gated api edge req next) w).0.status ≡ (serve next (handled_in req w)).0.status)
        × ((serve (gated api edge req next) w).0.body ≡ (serve next (handled_in req w)).0.body))
      ⊎ ((lets_in api edge req ≡ false)
          × ((serve (gated api edge req next) w).0.status ≡ 401)
          × ((serve (gated api edge req next) w).1 ≡ w))
      ⊎ ((is_own edge req w ≡ false)
          × ((serve (gated api edge req next) w).0.status ≡ 403)
          × ((serve (gated api edge req next) w).1 ≡ handled_in req w))
gated_lem api edge req next w = elim (Bool-cases (lets_in api edge req)) [
  | inl open_gate ↦ elim (Bool-cases (is_own edge req w)) [
    | inl own ↦
        let (after, status, body) = csrf-passes edge req next w own in
        let gate = past_gate api edge req next open_gate in
        inl (ground (arith, open_gate, own), rw gate after, rw gate status, rw gate body)
    | inr foreign ↦
        let (status, after) = csrf-refuses edge req next w foreign in
        let gate = past_gate api edge req next open_gate in
        inr (inr (foreign, rw gate status, rw gate after))
  ]
  | inr shut_gate ↦
      let (status, after) = challenged {w = w} in
      let gate = at_gate api edge req next shut_gate in
      inr (inl (shut_gate, rw gate status, rw gate after))
]
