-- ===== src/Handlers/Dashboard/Tenancy.antt =====
-- The figures of the dashboard are made of rows that the caller may see, and of no others.
use mathlib.Core.Path.{subst}
use log_monitor_tenex.Prelude.{
  ℕ, String, Text, codes, text_eq, Bool, true, false, not, none, some, ◌≡◌, refl, ◌&&◌, arith, inl,
  inr, if◌then◌else◌, ltb, ◌-◌, ◌+◌,
}
use log_monitor_tenex.Parser.Zscaler.Values.{Formats}
use log_monitor_tenex.Store.Tables.{User, is_admin}
use log_monitor_tenex.Store.Series.{dashboard_series, status_codes}
use log_monitor_tenex.Store.Dashboard.{Scope, Dimension, dashboard_summary, dashboard_top}
use log_monitor_tenex.Http.{Response, or_fail, fail_if}
use log_monitor_tenex.World.{World, ok, pure, gets, ◌>>=◌}
use log_monitor_tenex.World.Rules.{Ensures, Ensures-bind}
use log_monitor_tenex.Handlers.Dashboard.{
  DashboardQuery, scope_from, bound, scope_of, default_window,
}
use log_monitor_tenex.Handlers.Dashboard.Views.{
  as_seen, Fair, Blind-summary, Blind-codes, Blind-series, Blind-top,
}

fail_if-passed :
    (b : Bool) (status : ℕ) (m : String) (w v : World) {u : Unit {0}}
    → fail_if b status m w ≡ (ok u, v)
    → b ≡ false
unfolding fail_if ◌>>=◌
fail_if-passed true status m w v h = cc h
fail_if-passed false status m w v h = refl

scope_given :
    (caller : User) (from to : ℕ) (wide : Bool) (v : World) (sc : Scope) (u : World)
    → pure {E = Response} (scope_of caller from to (if wide then none else some caller.id)) v
      ≡ (ok sc, u)
    → scope_of caller from to (if wide then none else some caller.id) ≡ sc
unfolding ◌>>=◌
scope_given caller from to wide v sc u e = cc e

scope_of-Fair :
    (caller : User) (from to : ℕ) (wide : Bool)
    → (wide && not (is_admin caller.role)) ≡ false
    → Fair caller (scope_of caller from to (if wide then none else some caller.id))
scope_of-Fair caller from to true h = (refl, inl (ground arith))
scope_of-Fair caller from to false h = (refl, inr refl)

-- What `scopeFrom` gives is fair: the organization is the caller's, and the scope is that of the
-- caller alone unless the caller is an administrator.
scope_from-Fair :
    (formats : Formats) (caller : User) (q : DashboardQuery) (w : World)
    → Ensures (scope_from formats caller q) w (λ sc _. Fair caller sc)
unfolding scope_from ◌>>=◌
scope_from-Fair formats caller q w =
    let wide = text_eq q.scope (codes "org") in
    let P : Scope → World → Type 0 = λ sc _. Fair caller sc in
    Ensures-bind P (gets (λ v. v.now)) _ w (λ now v1 _.
      Ensures-bind P
        (or_fail (bound formats q.from (now - default_window)) 400
          "from must be an RFC3339 timestamp")
        _ v1
        (λ from v2 _.
          Ensures-bind P
            (or_fail (bound formats q.to (now + 60)) 400 "to must be an RFC3339 timestamp") _ v2
            (λ to v3 _.
              Ensures-bind P (fail_if (ltb to from) 400 "to is before from") _ v3 (λ _ v4 _.
                Ensures-bind P
                  (fail_if (wide && not (is_admin caller.role)) 403
                    "Only an administrator can view organization-wide figures")
                  _ v4
                  (λ _ v5 passed sc v6 e.
                    subst (Fair caller) (scope_given caller from to wide v5 sc v6 e) (
                      scope_of-Fair caller from to wide (
                        fail_if-passed (wide && not (is_admin caller.role)) 403
                          "Only an administrator can view organization-wide figures" v4 v5
                          passed)))))))

-- For a scope that `scopeFrom` gives a caller, the summary of the dashboard, its series, its rankings
-- and its breakdown by code are the same, success or failure, when all rows of rollups, log entries
-- and uploads are taken away that are of another organization, or, unless the caller is an
-- administrator, of another user.
pub figures_blind :
    (formats : Formats) (caller : User) (q : DashboardQuery) (w v u : World) (sc : Scope)
    (dim : Dimension) (limit : ℕ) (grain : Text)
    → scope_from formats caller q w ≡ (ok sc, v)
    → ((dashboard_summary sc (as_seen caller u)).0 ≡ (dashboard_summary sc u).0)
      × ((dashboard_top sc dim limit (as_seen caller u)).0 ≡ (dashboard_top sc dim limit u).0)
      × ((dashboard_series sc grain (as_seen caller u)).0 ≡ (dashboard_series sc grain u).0)
      × ((status_codes sc (as_seen caller u)).0 ≡ (status_codes sc u).0)
figures_blind formats caller q w v u sc dim limit grain h =
    let fair = scope_from-Fair formats caller q w sc v h in
    (
      (Blind-summary caller sc fair).at u,
      (Blind-top caller sc fair dim limit).at u,
      (Blind-series caller sc fair grain).at u,
      (Blind-codes caller sc fair).at u,
    )
