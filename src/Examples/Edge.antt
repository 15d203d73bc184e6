-- ===== src/Examples/Edge.antt =====
-- A request at the gates before the handlers.
use log_monitor_tenex.Prelude.{codes, true, false, some, [], ◌∷◌, ◌≡◌, ◌⊎◌, ◌&&◌}
use log_monitor_tenex.Filters.{Request, Method, Edge, gated}
use log_monitor_tenex.Filters.Gates.{gated_lem, lets_in, is_own, handled_in}
use log_monitor_tenex.Http.{Handler, serve}
use log_monitor_tenex.Handlers.Dashboard.{list_audit_handler}
use log_monitor_tenex.Examples.Sample.{gateway, start, bob}

abbrev pub edge : Edge
edge = record {
  enabled = true;
  user = codes "edge";
  pass_hash = codes "open sesame";
  random_token = λ n. some (n ∷ []);
}

-- A post without a token.
abbrev forged : Request
forged = record {
  method = Method.post;
  path = codes "/api/grants";
  csrf_cookie = some (codes "0123456789abcdef0123456789abcdef");
  csrf_header = [];
  credentials = some (codes "edge", codes "open sesame");
}

abbrev next : Handler
next = list_audit_handler bob 5

gated_lem_example :
    (((lets_in gateway edge forged && is_own edge forged start) ≡ true)
      × ((serve (gated gateway edge forged next) start).1
          ≡ (serve next (handled_in forged start)).1)
      × ((serve (gated gateway edge forged next) start).0.status
          ≡ (serve next (handled_in forged start)).0.status)
      × ((serve (gated gateway edge forged next) start).0.body
          ≡ (serve next (handled_in forged start)).0.body))
    ⊎ ((lets_in gateway edge forged ≡ false)
        × ((serve (gated gateway edge forged next) start).0.status ≡ 401)
        × ((serve (gated gateway edge forged next) start).1 ≡ start))
    ⊎ ((is_own edge forged start ≡ false)
        × ((serve (gated gateway edge forged next) start).0.status ≡ 403)
        × ((serve (gated gateway edge forged next) start).1 ≡ handled_in forged start))
gated_lem_example = gated_lem gateway edge forged next start
