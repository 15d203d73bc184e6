-- ===== src/Handlers/Grants/Effect.antt =====
-- grants.go, `createGrant`: the table of grants after a success.
use mathlib.Core.Path.{ap₂}
use log_monitor_tenex.Prelude.{ℕ, Option, some, List, ◌≡◌, ◌∙◌, inl, inr, Option-cases, arith}
use log_monitor_tenex.Store.Tables.{User, AccessGrant, AccessLevel, Db}
use log_monitor_tenex.Store.Grants.{GrantInput, upsert_grant, upserted, level_of_text, audit}
use log_monitor_tenex.Api.{Api}
use log_monitor_tenex.Http.{Response, serve}
use log_monitor_tenex.World.{World, ok, ◌>>=◌}
use log_monitor_tenex.World.Rules.{Result-cases, bind-ok}
use log_monitor_tenex.Handlers.Grants.Safety.{Reads-checked_grant}
use log_monitor_tenex.Handlers.Grants.Create.{IsChecked, checked_grant_sound}
use log_monitor_tenex.Handlers.Grants.{GrantRequest, checked_grant, create_grant}

-- The level and the table that a successful upsert leaves.
abbrev Upserts : GrantInput → World → List AccessGrant → Type 0
Upserts i w gs =
    (l : AccessLevel) × (id : ℕ) × (level_of_text i.level ≡ some l)
    × (gs ≡ upserted i l id w.now w.db.access_grants)

upsert_grant-ok :
    (i : GrantInput) (w : World) {g : AccessGrant}
    → (upsert_grant i w).0 ≡ ok g
    → Upserts i w (upsert_grant i w).1.db.access_grants
unfolding upsert_grant ◌>>=◌
upsert_grant-ok i w {g} h = elim (Option-cases (level_of_text i.level)) [
  | inl bad ↦ absurd (ground arith)
  | inr (l, e) ↦ (l, w.fresh, e, ground arith)
]

Upserts-moved :
    (i : GrantInput) (w w' : World) {gs : List AccessGrant}
    → w'.db ≡ w.db
    → w'.now ≡ w.now
    → Upserts i w' gs
    → Upserts i w gs
Upserts-moved i w w' same time (l, id, el, et) =
    (l, id, el, et ∙ ap₂ (λ (d : Db) (now : ℕ). upserted i l id now d.access_grants) same time)

write-Upserts :
    (api : Api) (caller : User) (body : Option GrantRequest) (w : World) {subject : User}
    {input : GrantInput} {r : Response}
    → (checked_grant api caller body w).0 ≡ ok (subject, input)
    → (create_grant api caller body w).0 ≡ ok r
    → (r.status ≡ 201)
      × Upserts input
          (checked_grant api caller body w).1
          (create_grant api caller body w).1.db.access_grants
unfolding create_grant serve audit
write-Upserts api caller body w {subject} {input} checked h =
    elim (Result-cases (upsert_grant input (checked_grant api caller body w).1).0) [
      | inr (bad, e) ↦ absurd (ground arith)
      | inl (g, e) ↦
          let (l, id, el, et) = upsert_grant-ok input (checked_grant api caller body w).1 e in
          (ground arith, (l, id, el, ground arith))
    ]

-- A grant is made only as asked for: the subject is another user of the caller's organization; the
-- target is the organization, for an administrator, or an upload of it that the caller may share
-- and the subject does not own; the expiry has not passed. The answer is 201, and the table is the
-- one in which the grant has been written over its target's old one, or else added.
pub create_grant_sound :
    (api : Api) (caller : User) (req : GrantRequest) (w : World) {r : Response}
    → (create_grant api caller (some req) w).0 ≡ ok r
    → (r.status ≡ 201)
      × (subject : User) × (input : GrantInput) × IsChecked api caller req w subject input
      × (l : AccessLevel) × (id : ℕ) × (level_of_text input.level ≡ some l)
      × ((create_grant api caller (some req) w).1.db.access_grants
          ≡ upserted input l id w.now w.db.access_grants)
unfolding create_grant
create_grant_sound api caller req w {r} h =
    let ((subject, input), e, _) = bind-ok (checked_grant api caller (some req)) _ w h in
    let reads = Reads-checked_grant api caller (some req) in
    let (status, written) = write-Upserts api caller (some req) w e h in
    let (l, id, el, et) =
      Upserts-moved input w (checked_grant api caller (some req) w).1 (reads.at w) (reads.time w)
        written in
    (status, subject, input, checked_grant_sound api caller req w e, l, id, el, et)
