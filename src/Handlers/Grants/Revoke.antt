-- ===== src/Handlers/Grants/Revoke.antt =====
-- grants.go, `deleteGrant`: who may revoke a grant, and that no other one goes.
use log_monitor_tenex.Prelude.{
  ℕ, Text, true, not, some, List, ◌≡◌, sym, ◌⊎◌, ◌&&◌, ◌==◌, inl, inr, arith, find?, keep_if,
  Option-cases,
}
use log_monitor_tenex.Store.Tables.{User, AccessGrant, Db, is_admin}
use log_monitor_tenex.Store.Grants.{is_grant, grant_by_id, delete_grant, audit}
use log_monitor_tenex.Store.Rules.{store_rules}
use log_monitor_tenex.Api.{Api}
use log_monitor_tenex.Http.{Response, serve}
use log_monitor_tenex.Http.Rules.{handler_rules}
use log_monitor_tenex.World.{World, ok}
use log_monitor_tenex.World.Rules.{Reads, bind-ok}
use log_monitor_tenex.Handlers.Grants.{delete_grant_handler, revocable}

Reads-revocable :
    (api : Api) (caller : User) (path_id : Text) → Reads (revocable api caller path_id)
unfolding revocable
Reads-revocable api caller path_id = search (handler_rules, store_rules) depth 30

-- What is true of the grant that a caller may revoke.
abbrev pub IsRevocable : Api → Db → User → Text → ℕ → AccessGrant → Type 0
IsRevocable api db caller path_id id g =
    (api.parse_uuid path_id ≡ some id)
    × (find? (is_grant caller.org_id id) db.access_grants ≡ some g)
    × ((g.granted_by ≡ caller.id) ⊎ (is_admin caller.role ≡ true))

revocable_sound :
    (api : Api) (caller : User) (path_id : Text) (w : World) {id : ℕ} {g : AccessGrant}
    → (revocable api caller path_id w).0 ≡ ok (id, g)
    → IsRevocable api w.db caller path_id id g
unfolding revocable serve grant_by_id
revocable_sound api caller path_id w {id} {g} h = elim (Option-cases (api.parse_uuid path_id)) [
  | inl bad ↦ absurd (ground arith)
  | inr (i, e) ↦ elim (Option-cases (find? (is_grant caller.org_id i) w.db.access_grants)) [
    | inl missing ↦ absurd (ground arith)
    | inr (u, f) ↦ (ground arith, ground arith, ground arith)
  ]
]

-- The table keeps the grants that are not the one of the organization with this identifier.
abbrev pub Removes : ℕ → ℕ → List AccessGrant → List AccessGrant → Type 0
Removes org id before after = after ≡ keep_if (λ g. not (g.id == id && g.org_id == org)) before

write-Removes :
    (api : Api) (caller : User) (path_id : Text) (w : World) {id : ℕ} {g : AccessGrant}
    {r : Response}
    → (revocable api caller path_id w).0 ≡ ok (id, g)
    → (delete_grant_handler api caller path_id w).0 ≡ ok r
    → (r.status ≡ 204)
      × Removes caller.org_id id
          (revocable api caller path_id w).1.db.access_grants
          (delete_grant_handler api caller path_id w).1.db.access_grants
unfolding delete_grant_handler delete_grant audit serve
write-Removes api caller path_id w {id} {g} checked h = (ground arith, ground arith)

Removes-moved :
    (org id : ℕ) (d d' : Db) (after : List AccessGrant)
    → d ≡ d'
    → Removes org id d.access_grants after
    → Removes org id d'.access_grants after
Removes-moved org id d d' after same gone = rw (sym same) gone

-- A revocation that succeeds was asked for by the granter or by an administrator of the grant's
-- organization, and is answered with 204. The table keeps exactly the other grants.
pub delete_grant_sound :
    (api : Api) (caller : User) (path_id : Text) (w : World) {r : Response}
    → (delete_grant_handler api caller path_id w).0 ≡ ok r
    → (r.status ≡ 204)
      × (id : ℕ) × (g : AccessGrant) × IsRevocable api w.db caller path_id id g
      × Removes caller.org_id id w.db.access_grants
          (delete_grant_handler api caller path_id w).1.db.access_grants
unfolding delete_grant_handler
delete_grant_sound api caller path_id w {r} h =
    let ((id, g), e, _) = bind-ok (revocable api caller path_id) _ w h in
    let (status, gone) = write-Removes api caller path_id w e h in
    (
      status,
      id,
      g,
      revocable_sound api caller path_id w e,
      Removes-moved caller.org_id id (revocable api caller path_id w).1.db w.db
          (delete_grant_handler api caller path_id w).1.db.access_grants
          ((Reads-revocable api caller path_id).at w) gone,
    )
