-- ===== src/Handlers/Refusals.antt =====
-- The handlers that write: a request that is refused leaves the database as it was, whichever of
-- the calls to Postgres, Redis and the bucket failed, and however late.
use log_monitor_tenex.Prelude.{ℕ, zero, suc, Text, Bool, Option, List, [], ◌∷◌, ◌≡◌}
use log_monitor_tenex.Store.Tables.{User}
use log_monitor_tenex.Store.Rules.{store_rules}
use log_monitor_tenex.Api.{Api}
use log_monitor_tenex.RateLimit.Rules.{limiter_rules}
use log_monitor_tenex.Http.{Response, Handler}
use log_monitor_tenex.Http.Rules.{handler_rules, Reads-or_fail}
use log_monitor_tenex.World.{World, err}
use log_monitor_tenex.World.Rules.{Reads, Clean, Total, Reads-bind, Reads-fresh_id, Reads-pure}
use log_monitor_tenex.Handlers.Grants.{GrantRequest, create_grant, delete_grant_handler}
use log_monitor_tenex.Handlers.Grants.Safety.{create_grant-Clean, delete_grant_handler-Clean}
use log_monitor_tenex.Handlers.Uploads.{delete_upload_handler, delete_archive}
use log_monitor_tenex.Handlers.Org.{InviteRequest, invite_member, invited_role}
use log_monitor_tenex.Handlers.Mfa.{
  enroll_mfa, activate_mfa_handler, recovery_codes, hash_codes, reset_member_mfa,
  set_org_mfa_policy,
}

ruleset rules = (handler_rules, store_rules, limiter_rules)

pub Total-delete_archive : (api : Api) (key : Text) → Total (delete_archive api key)
unfolding delete_archive
Total-delete_archive api key = search rules depth 20

pub Reads-invited_role : (caller : User) (role : Text) → Reads (invited_role caller role)
unfolding invited_role
Reads-invited_role caller role = search rules depth 30

pub Reads-recovery_codes : (api : Api) (n : ℕ) → Reads (recovery_codes api n)
unfolding recovery_codes
Reads-recovery_codes api zero = search rules depth 20
Reads-recovery_codes api (suc n) =
    let rest = Reads-recovery_codes api n in
    Reads-bind _ _ Reads-fresh_id
      (λ seed. Reads-bind _ _ (Reads-or_fail _ _ _) (λ c. Reads-bind _ _ rest (λ cs. Reads-pure _)))

pub Reads-hash_codes : (api : Api) (cs : List Text) → Reads (hash_codes api cs)
unfolding hash_codes
Reads-hash_codes api [] = search rules depth 20
Reads-hash_codes api (c ∷ cs) =
    let rest = Reads-hash_codes api cs in
    Reads-bind _ _ Reads-fresh_id
      (λ salt. Reads-bind _ _ (Reads-or_fail _ _ _) (λ h. Reads-bind _ _ rest (λ hs. Reads-pure _)))

module _ (api : Api) (caller : User) where
  delete_upload_handler-Clean : (id : Text) → Clean (delete_upload_handler api caller id)
  unfolding delete_upload_handler
  delete_upload_handler-Clean id = search (Total-delete_archive, rules) depth 40

  invite_member-Clean : (body : Option InviteRequest) → Clean (invite_member api caller body)
  unfolding invite_member
  invite_member-Clean body = search (Reads-invited_role, rules) depth 40

  enroll_mfa-Clean : Clean (enroll_mfa api caller)
  unfolding enroll_mfa
  enroll_mfa-Clean = search rules depth 40

  activate_mfa_handler-Clean : (body : Option Text) → Clean (activate_mfa_handler api caller body)
  unfolding activate_mfa_handler
  activate_mfa_handler-Clean body = search (Reads-recovery_codes, Reads-hash_codes, rules) depth 50

  reset_member_mfa-Clean : (id : Text) → Clean (reset_member_mfa api caller id)
  unfolding reset_member_mfa
  reset_member_mfa-Clean id = search rules depth 40

  set_org_mfa_policy-Clean : (body : Option Bool) → Clean (set_org_mfa_policy caller body)
  unfolding set_org_mfa_policy
  set_org_mfa_policy-Clean body = search rules depth 40

-- The requests that write to the database in one transaction, besides what the audit log gains.
pub data Command : Type 0 where
  create_grant_command : Option GrantRequest → Command
  delete_grant_command : Text → Command
  delete_upload_command : Text → Command
  invite_command : Option InviteRequest → Command
  enroll_command : Command
  activate_command : Option Text → Command
  reset_command : Text → Command
  policy_command : Option Bool → Command

-- The handler of a request.
abbrev pub handle : Api → User → Command → Handler
handle api caller (create_grant_command body) = create_grant api caller body
handle api caller (delete_grant_command id) = delete_grant_handler api caller id
handle api caller (delete_upload_command id) = delete_upload_handler api caller id
handle api caller (invite_command body) = invite_member api caller body
handle api caller enroll_command = enroll_mfa api caller
handle api caller (activate_command body) = activate_mfa_handler api caller body
handle api caller (reset_command id) = reset_member_mfa api caller id
handle api caller (policy_command body) = set_org_mfa_policy caller body

handle-Clean : (api : Api) (caller : User) (c : Command) → Clean (handle api caller c)
handle-Clean api caller (create_grant_command body) = create_grant-Clean api caller body
handle-Clean api caller (delete_grant_command id) = delete_grant_handler-Clean api caller id
handle-Clean api caller (delete_upload_command id) = delete_upload_handler-Clean api caller id
handle-Clean api caller (invite_command body) = invite_member-Clean api caller body
handle-Clean api caller enroll_command = enroll_mfa-Clean api caller
handle-Clean api caller (activate_command body) = activate_mfa_handler-Clean api caller body
handle-Clean api caller (reset_command id) = reset_member_mfa-Clean api caller id
handle-Clean api caller (policy_command body) = set_org_mfa_policy-Clean api caller body

-- Where a request to make or delete a grant, delete an upload, invite a member, enrol or activate
-- a second factor, reset a member's or set the policy is refused, for whatever reason, the
-- database is as it was.
pub refused_changes_nothing :
    (api : Api) (caller : User) (c : Command) (w : World) {r : Response}
    → (handle api caller c w).0 ≡ err r
    → (handle api caller c w).1.db ≡ w.db
refused_changes_nothing api caller c w {r} h = (handle-Clean api caller c).at w r h
