-- ===== src/Handlers/Org/Invite.antt =====
-- org.go, `inviteMember`, and mfa.go, `resetMemberMFA`: what an administrator may do to others.
use log_monitor_tenex.Prelude.{
  ℕ, Text, true, false, Option, none, some, [], ◌∷◌, ◌++◌, ◌≡◌, ap, sym, ◌∙◌, inl, inr, arith, any,
  trim_space,
}
use log_monitor_tenex.Store.Tables.{User, Role, Db, is_admin}
use log_monitor_tenex.Store.Users.{create_member, insert_user, has_email}
use log_monitor_tenex.Store.Grants.{audit}
use log_monitor_tenex.Api.{Api}
use log_monitor_tenex.Http.{Response, serve}
use log_monitor_tenex.Http.Rules.{handler_rules, fail_if-ok, or_fail-ok}
use log_monitor_tenex.World.{World, ok, fresh_id, ◌>>=◌}
use log_monitor_tenex.World.Rules.{Result-cases, Reads, bind-ok, pure-ok}
use log_monitor_tenex.Handlers.Refusals.{Reads-invited_role}
use log_monitor_tenex.Handlers.Org.{InviteRequest, invite_member, invited, invited_role, is_owner}

-- The role is one that the caller may hand out: an owner only by an owner.
invited_role_allowed :
    (caller : User) (text : Text) (w : World) {role : Role}
    → (invited_role caller text w).0 ≡ ok role
    → (role ≡ Role.owner → caller.role ≡ Role.owner) × ((invited_role caller text w).1 ≡ w)
unfolding invited_role is_owner serve
invited_role_allowed caller text w {role} h = (λ e. ground arith, ground arith)

Reads-invited :
    (api : Api) (caller : User) (body : Option InviteRequest) → Reads (invited api caller body)
unfolding invited
Reads-invited api caller body = search (Reads-invited_role, handler_rules) depth 40

-- What has been checked of a new member.
abbrev pub IsInvited : User → InviteRequest → Text → Role → Type 0
IsInvited caller req email role =
    (is_admin caller.role ≡ true)
    × (email ≡ trim_space req.email)
    × (role ≡ Role.owner → caller.role ≡ Role.owner)

invited_sound :
    (api : Api) (caller : User) (req : InviteRequest) (w : World) {email hash : Text} {role : Role}
    → (invited api caller (some req) w).0 ≡ ok (email, hash, role)
    → IsInvited caller req email role
unfolding invited
invited_sound api caller req w {email} {hash} {role} h =
    let (admin, h) = fail_if-ok _ _ _ _ w h in
    let (r, asked, h) = or_fail-ok _ _ _ _ w h in
    let same : some req ≡ some r = asked in
    let (_, h) = fail_if-ok _ _ _ _ w h in
    let (_, h) = fail_if-ok _ _ _ _ w h in
    let (given, e, p) = bind-ok (invited_role caller r.role) _ w h in
    let (allowed, _) = invited_role_allowed caller r.role w e in
    let w' = (invited_role caller r.role w).1 in
    let h = ap (λ x. x.0) (sym p) ∙ h in
    let (salt, _, q) = bind-ok fresh_id _ w' h in
    let (hashed, _, h) =
      or_fail-ok _ _ _ _ (fresh_id {E = Response} w').1 (ap (λ x. x.0) (sym q) ∙ h) in
    let is = pure-ok _ _ h in (ground arith, ground arith, λ owner. allowed (ground arith))

-- The table of users with one more, whose e-mail is new to it.
abbrev pub Adds : User → Db → Db → Type 0
Adds u before after =
    (any (has_email u.email) before.users ≡ false)
    × (after.users
        ≡ before.users ++ record { user = u; totp_enabled = false; totp_secret = none } ∷ [])

create_member-Adds :
    (org : ℕ) (email hash : Text) (role : Role) (w : World) {u : User}
    → (create_member org email hash role w).0 ≡ ok u
    → (u.org_id ≡ org)
      × (u.email ≡ email)
      × (u.role ≡ role)
      × Adds u w.db (create_member org email hash role w).1.db
unfolding create_member insert_user ◌>>=◌
create_member-Adds org email hash role w {u} h =
    let is : u ≡ record {
      id = w.fresh;
      org_id = org;
      email = email;
      password_hash = hash;
      role = role;
      created_at = w.now;
    } =
      ground arith in
    (ground arith, ground arith, ground arith, (rw is (ground arith), ground arith))

write-Adds :
    (api : Api) (caller : User) (body : Option InviteRequest) (w : World) {email hash : Text}
    {role : Role} {r : Response}
    → (invited api caller body w).0 ≡ ok (email, hash, role)
    → (invite_member api caller body w).0 ≡ ok r
    → (u : User) × (u.org_id ≡ caller.org_id)
      × (u.email ≡ email)
      × (u.role ≡ role)
      × Adds u (invited api caller body w).1.db (invite_member api caller body w).1.db
unfolding invite_member audit serve
write-Adds api caller body w {email} {hash} {role} {r} checked h =
    let w1 = (invited api caller body w).1 in
    elim (Result-cases (create_member caller.org_id email hash role w1).0) [
      | inr (bad, e) ↦ absurd (ground arith)
      | inl (u, e) ↦
          let (org, mail, rank, (fresh, added)) =
            create_member-Adds caller.org_id email hash role w1 e in
          (u, org, mail, rank, (fresh, ground arith))
    ]

Adds-moved : (u : User) (d d' after : Db) → d ≡ d' → Adds u d after → Adds u d' after
Adds-moved u d d' after same added = rw (sym same) added

-- An invitation that succeeds was made by an administrator. It adds exactly one user, without a
-- second factor, to the caller's own organization, under an e-mail that no user had; and only an
-- owner makes an owner.
pub invite_member_sound :
    (api : Api) (caller : User) (req : InviteRequest) (w : World) {r : Response}
    → (invite_member api caller (some req) w).0 ≡ ok r
    → (u : User) × (u.org_id ≡ caller.org_id)
      × IsInvited caller req u.email u.role
      × Adds u w.db (invite_member api caller (some req) w).1.db
unfolding invite_member
invite_member_sound api caller req w {r} h =
    let ((email, hash, role), e, _) = bind-ok (invited api caller (some req)) _ w h in
    let (u, org, mail, rank, added) = write-Adds api caller (some req) w e h in
    let is = invited_sound api caller req w e in
    let same = (Reads-invited api caller (some req)).at w in
    (
      u,
      org,
      rw (mail, rank) is,
      Adds-moved u (invited api caller (some req) w).1.db w.db
          (invite_member api caller (some req) w).1.db same added,
    )
