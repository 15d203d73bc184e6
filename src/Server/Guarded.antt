-- ===== src/Server/Guarded.antt =====
-- Without a session nothing behind `req` is reached, through the whole chain of the server.
use log_monitor_tenex.Prelude.{
  ℕ, Text, Bool, true, false, Option, none, some, ◌≡◌, ◌≢◌, ◌⊎◌, refl, sym, ap, ◌∙◌, inl, inr,
  arith, String, ◌&&◌,
}
use log_monitor_tenex.Store.Tables.{User}
use log_monitor_tenex.Store.Users.{user_by_id}
use log_monitor_tenex.Api.{Api}
use log_monitor_tenex.Http.{Response, Handler, fail_if, or_fail, or_fail_with, serve, answer}
use log_monitor_tenex.World.{World, Exec, Result, ok, err, Error, gets, select, ◌>>=◌}
use log_monitor_tenex.World.Rules.{Result-cases, bind-run}
use log_monitor_tenex.Session.{user_of_token, purpose_session, require}
use log_monitor_tenex.Filters.{Edge}
use log_monitor_tenex.Filters.Gates.{gated_lem, handled_in, drawn_in, lets_in, is_own}
use log_monitor_tenex.Server.Routes.{Endpoint, found, route_of}
use log_monitor_tenex.Server.Dispatch.{
  HttpRequest, Parts, Guarded, member, handler_of, guarded, mux, server,
}

-- What anyone may ask for: the state of the process, the ways to an account, and the figures for
-- operators, which have a token of their own.
abbrev pub is_public : Endpoint → Bool
is_public Endpoint.health = true
is_public Endpoint.register = true
is_public Endpoint.login = true
is_public Endpoint.logout = true
is_public Endpoint.verify_mfa = true
is_public Endpoint.metrics = true
is_public _ = false

-- It changes nothing but the count of the calls that were made, and fails with a 401 only.
record Asks {A : Type 0} (m : Exec Response A) : Type 0 where
  still : (w : World) → (m w).1 ≡ record w { faults = (m w).1.faults }
  refuses : (w : World) (r : Response) → (m w).0 ≡ err r → r.status ≡ 401

Asks-or_fail : {A : Type 0} (o : Option A) (t : String) → Asks (or_fail o 401 t)
unfolding or_fail ◌>>=◌
Asks-or_fail none t = record { still = λ w. refl; refuses = λ w r h. ground (arith, h) }
Asks-or_fail (some a) t = record { still = λ w. refl; refuses = λ w r h. cc }

Asks-fail_if : (b : Bool) (t : String) → Asks (fail_if b 401 t)
unfolding fail_if ◌>>=◌
Asks-fail_if true t = record { still = λ w. refl; refuses = λ w r h. ground (arith, h) }
Asks-fail_if false t = record { still = λ w. refl; refuses = λ w r h. cc }

Asks-gets : {A : Type 0} (f : World → A) → Asks (gets f)
unfolding ◌>>=◌
Asks-gets f = record { still = λ w. refl; refuses = λ w r h. cc }

Asks-select :
    {A : Type 0} (f : World → Result Error A) (t : String) → Asks (or_fail_with (select f) 401 t)
unfolding or_fail_with ◌>>=◌
Asks-select f t = record { still = λ w. ground arith; refuses = λ w r h. ground arith }

Asks-user_by_id : (id : ℕ) (t : String) → Asks (or_fail_with (user_by_id id) 401 t)
unfolding user_by_id
Asks-user_by_id id t = Asks-select _ t

Asks-bind :
    {A B : Type 0} (m : Exec Response A) (f : A → Exec Response B)
    → Asks m
    → ((a : A) → Asks (f a))
    → Asks (m >>= f)
unfolding ◌>>=◌
Asks-bind m f hm hf = record {
  still = λ w. elim (Result-cases (m w).0) [
    | inl (a, q) ↦ rw q (
        (hf a).still (m w).1
        ∙ ap (λ (v : World). record v { faults = (f a (m w).1).1.faults }) (hm.still w))
    | inr (e, q) ↦ rw q (hm.still w)
  ];
  refuses = λ w r h. elim (Result-cases (m w).0) [
    | inl (a, q) ↦ (hf a).refuses (m w).1 r (rw q at h)
    | inr (e, q) ↦ hm.refuses w r (q ∙ cc (rw q at h))
  ];
}

ruleset asking = (Asks-bind, Asks-or_fail, Asks-fail_if, Asks-gets, Asks-user_by_id)

Asks-user_of_token :
    (api : Api) (purpose : Text) (cookie : Option Text) → Asks (user_of_token api purpose cookie)
unfolding user_of_token
Asks-user_of_token api purpose cookie = search asking depth 20

module _ (api : Api) (parts : Parts) (r : HttpRequest) where
  abbrev handler_at : Text → Endpoint → Guarded
  handler_at id e = handler_of api parts r.client r.inputs id e

  -- What is not public stands behind `req`.
  wrapped :
      (id : Text) (e : Endpoint)
      → is_public e ≡ false
      → (f : User → Handler) × (handler_at id e ≡ member f)
  unfolding handler_of
  wrapped id Endpoint.health h = cc
  wrapped id Endpoint.register h = cc
  wrapped id Endpoint.login h = cc
  wrapped id Endpoint.logout h = cc
  wrapped id Endpoint.me h = (_, refl)
  wrapped id Endpoint.verify_mfa h = cc
  wrapped id Endpoint.enroll_mfa h = (_, refl)
  wrapped id Endpoint.activate_mfa h = (_, refl)
  wrapped id Endpoint.disable_mfa h = (_, refl)
  wrapped id Endpoint.list_org_users h = (_, refl)
  wrapped id Endpoint.invite_member h = (_, refl)
  wrapped id Endpoint.reset_member_mfa h = (_, refl)
  wrapped id Endpoint.set_org_mfa_policy h = (_, refl)
  wrapped id Endpoint.list_grants h = (_, refl)
  wrapped id Endpoint.create_grant h = (_, refl)
  wrapped id Endpoint.delete_grant h = (_, refl)
  wrapped id Endpoint.list_uploads h = (_, refl)
  wrapped id Endpoint.create_upload h = (_, refl)
  wrapped id Endpoint.start_analysis h = (_, refl)
  wrapped id Endpoint.delete_upload h = (_, refl)
  wrapped id Endpoint.get_analysis h = (_, refl)
  wrapped id Endpoint.dashboard_summary h = (_, refl)
  wrapped id Endpoint.dashboard_series h = (_, refl)
  wrapped id Endpoint.dashboard_top h = (_, refl)
  wrapped id Endpoint.status_codes h = (_, refl)
  wrapped id Endpoint.action_plan h = (_, refl)
  wrapped id Endpoint.list_audit h = (_, refl)
  wrapped id Endpoint.search h = (_, refl)
  wrapped id Endpoint.metrics h = cc

  -- The session of the request opens nothing in a world.
  abbrev pub IsStranger : World → Type 0
  IsStranger v = (u : User) → (user_of_token api purpose_session r.client.session_cookie v).0 ≢ ok u

  -- A handler behind `req` answers a stranger with 401, and has done nothing.
  abbrev Refused : Handler → World → Type 0
  Refused h v =
      ((serve h v).0.status ≡ 401) × ((serve h v).1 ≡ record v { faults = (serve h v).1.faults })

  require-refuses :
      (f : User → Handler) (v : World)
      → IsStranger v
      → Refused (require api r.client.session_cookie f) v
  unfolding serve require
  require-refuses f v stranger =
      let m = user_of_token api purpose_session r.client.session_cookie in
      let asked = Asks-user_of_token api purpose_session r.client.session_cookie in
      elim (Result-cases (m v).0) [
        | inl (u, q) ↦ absurd (stranger u q)
        | inr (x, q) ↦ rw q (asked.refuses v x q, asked.still v)
      ]

  mux-refuses :
      (e : Endpoint) (id : Text) (v : World)
      → is_public e ≡ false
      → IsStranger v
      → Refused (mux api parts r (found e id)) v
  unfolding mux guarded
  mux-refuses e id v h stranger = let (f, q) = wrapped id e h in rw q (require-refuses f v stranger)

-- Nothing but the supply of fresh tokens and the count of calls is another.
abbrev pub AsBefore : World → World → Type 0
AsBefore v w = v ≡ record w { fresh = v.fresh; faults = v.faults }

drawn-AsBefore : (o : Option Text) (w : World) → AsBefore (drawn_in o w) w
drawn-AsBefore (some c) w = refl
drawn-AsBefore none w = refl

AsBefore-calls : (u v w : World) → AsBefore v w → u ≡ record v { faults = u.faults } → AsBefore u w
AsBefore-calls u v w h e =
    e
    ∙ ap (λ (x : World). record x { faults = u.faults }) h
    ∙ ap (λ n. record w { fresh = n; faults = u.faults }) (sym (ap (λ (x : World). x.fresh) e))

-- A request for anything but the state of the process, the ways to an account and the metrics, whose
-- session cookie opens no session where the mux is reached, is answered with 401 or 403, and nothing
-- changes but for a token that may have been drawn: no row, key, job or archived object does.
pub needs_session :
    (api : Api) (edge : Edge) (parts : Parts) (r : HttpRequest) (w : World) (e : Endpoint)
    (id : Text)
    → route_of r.edge.method r.edge.path ≡ found e id
    → is_public e ≡ false
    → IsStranger api parts r (handled_in r.edge w)
    → (((serve (server api edge parts r) w).0.status ≡ 401)
        ⊎ ((serve (server api edge parts r) w).0.status ≡ 403))
      × AsBefore (serve (server api edge parts r) w).1 w
unfolding server
needs_session api edge parts r w e id at_route closed stranger =
    let next = mux api parts r (route_of r.edge.method r.edge.path) in
    let (status, still) = mux-refuses api parts r e id (handled_in r.edge w) closed stranger in
    elim (gated_lem api edge r.edge next w) [
      | inl (_, after, code, _) ↦ (
        inl (code ∙ rw at_route status),
        AsBefore-calls _ (handled_in r.edge w) w (drawn-AsBefore _ w)
            (rw after (rw at_route still)),
      )
      | inr (inl (_, code, after)) ↦ (inl code, rw after refl)
      | inr (inr (_, code, after)) ↦ (inr code, rw after (drawn-AsBefore _ w))
    ]

module _ (api : Api) (edge : Edge) (parts : Parts) (r : HttpRequest) (w : World) where
  -- The answer of the server, and the world that it leaves.
  abbrev pub answered_by : Response × World
  answered_by = serve (server api edge parts r) w

  -- The caller that the session names, in the world after that was found out.
  abbrev pub Named : User → World → Type 0
  Named u v =
      user_of_token api purpose_session r.client.session_cookie (handled_in r.edge w) ≡ (ok u, v)

  -- The request passed the filters, and the answer is that of a handler for a caller.
  abbrev pub Handled : (User → Handler) → User → World → Type 0
  Handled f u v =
      ((lets_in api edge r.edge && is_own edge r.edge w) ≡ true)
      × (answered_by.0.status ≡ (serve (f u) v).0.status)
      × (answered_by.0.body ≡ (serve (f u) v).0.body)
      × (answered_by.1 ≡ (serve (f u) v).1)

  abbrev pub TurnedAway : Type 0
  TurnedAway =
      ((answered_by.0.status ≡ 401) ⊎ (answered_by.0.status ≡ 403)) × AsBefore answered_by.1 w

  require-runs :
      (f : User → Handler) (u : User) (v : World)
      → Named u v
      → require api r.client.session_cookie f (handled_in r.edge w) ≡ f u v
  unfolding require
  require-runs f u v named =
      bind-run _ f (handled_in r.edge w) (ap (λ (x : Result Response User × World). x.0) named)
      ∙ ap (λ (x : Result Response User × World). f u x.1) named

  mux-runs :
      (e : Endpoint) (id : Text) (f : User → Handler) (u : User) (v : World)
      → route_of r.edge.method r.edge.path ≡ found e id
      → handler_of api parts r.client r.inputs id e ≡ member f
      → Named u v
      → serve (mux api parts r (route_of r.edge.method r.edge.path)) (handled_in r.edge w)
        ≡ serve (f u) v
  unfolding mux guarded serve
  mux-runs e id f u v at_route wraps named =
      ap (λ x. serve (mux api parts r x) (handled_in r.edge w)) at_route
      ∙ ap (λ h. serve (guarded api r.client.session_cookie h) (handled_in r.edge w)) wraps
      ∙ ap (λ (x : Result Response Response × World). (answer x.0, x.1)) (require-runs f u v named)

err-ne-ok : {x : Response} {u : User} {y : Result Response User} → y ≡ err x → y ≢ ok u
err-ne-ok p h = cc

-- A request for what is not public has one of two outcomes. The filters let it pass and its cookie
-- names a user: the answer has the status and the body that the handler of the route gives for this
-- user, and leaves the world as that does. Or it is turned away with 401 or 403, and nothing changes
-- but for a token that may have been drawn: no row, key, job or archived object does.
pub members_only :
    (api : Api) (edge : Edge) (parts : Parts) (r : HttpRequest) (w : World) (e : Endpoint)
    (id : Text)
    → route_of r.edge.method r.edge.path ≡ found e id
    → is_public e ≡ false
    → ((f : User → Handler) × (handler_of api parts r.client r.inputs id e ≡ member f)
        × (u : User) × (v : World) × Named api edge parts r w u v
        × Handled api edge parts r w f u v)
      ⊎ TurnedAway api edge parts r w
unfolding server
members_only api edge parts r w e id at_route closed =
    let asked = user_of_token api purpose_session r.client.session_cookie (handled_in r.edge w) in
    let next = mux api parts r (route_of r.edge.method r.edge.path) in
    elim (Result-cases asked.0) [
      | inr (x, q) ↦
          inr (needs_session api edge parts r w e id at_route closed (λ u h. err-ne-ok q h))
      | inl (u, q) ↦ elim (gated_lem api edge r.edge next w) [
        | inl (passed, after, status, body) ↦
            let (f, wraps) = wrapped api parts r id e closed in
            let named : Named api edge parts r w u asked.1 = λ i. (q i, asked.1) in
            let run = mux-runs api edge parts r w e id f u asked.1 at_route wraps named in
            inl (
              f,
              wraps,
              u,
              asked.1,
              named,
              (
                passed,
                status ∙ ap (λ (x : Response × World). x.0.status) run,
                body ∙ ap (λ (x : Response × World). x.0.body) run,
                after ∙ ap (λ (x : Response × World). x.1) run,
              ),
            )
        | inr (inl (_, code, after)) ↦ inr (inl code, rw after refl)
        | inr (inr (_, code, after)) ↦ inr (inr code, rw after (drawn-AsBefore _ w))
      ]
    ]
