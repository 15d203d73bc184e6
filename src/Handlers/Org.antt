-- ===== src/Handlers/Org.antt =====
-- backend/gateway/internal/handlers/org.go: the members of an organization.
pub mod Invite
use log_monitor_tenex.Prelude.{
  ℕ, String, Text, codes, Bool, true, false, not, Option, none, some, List, [], ◌∷◌, ltb,
  if◌then◌else◌, trim_space, text_eq,
}
use log_monitor_tenex.Store.Tables.{User, Role, AuditRecord, Value, is_admin}
use log_monitor_tenex.Store.Grants.{audit}
use log_monitor_tenex.Store.Users.{list_org_users, create_member}
use log_monitor_tenex.Authz.{role_text}
use log_monitor_tenex.Api.{Api}
use log_monitor_tenex.Http.{
  Response, Handler, Body, user_body, users_body, json, failure, fail_if, or_fail, or_fail_with,
}
use log_monitor_tenex.Handlers.Request.{byte_length}
use log_monitor_tenex.Handlers.Auth.{is_no_email, min_password_len}
use log_monitor_tenex.World.{
  World, Exec, Result, Error, pure, raise, try, or_else, fresh_id, ◌>>=◌, ◌>>◌,
}

-- `listOrgUsers`
unfoldable pub list_org_users_handler : User → Handler
list_org_users_handler caller = do
  users ← or_fail_with (list_org_users caller.org_id) 500 "Could not list users"
  pure (json 200 (users_body users))

pub record InviteRequest : Type 0 where
  pub email : Text
  pub password : Text
  pub role : Text

unfoldable pub is_owner : Role → Bool
is_owner Role.owner = true
is_owner _ = false

-- The `switch` on the role that is asked for.
unfoldable pub invited_role : User → Text → Exec Response Role
unfolding is_owner
invited_role caller role =
    if text_eq role []
    then pure Role.member
    else if text_eq role (codes "member")
    then pure Role.member
    else if text_eq role (codes "admin")
    then pure Role.admin
    else if text_eq role (codes "owner")
    then (if is_owner caller.role
        then pure Role.owner
        else raise (failure 403 "Only the organization owner can create another owner"))
    else raise (failure 400 "Role must be one of: member, admin, owner")

abbrev invite_failure : Error → Response
invite_failure Error.email_taken = failure 409 "That email is already registered"
invite_failure _ = failure 500 "Could not create account"

abbrev member_invited : User → User → AuditRecord
member_invited caller user = record {
  org_id = caller.org_id;
  actor_user_id = some caller.id;
  action = "member.invited";
  resource_type = "user";
  resource_id = some user.id;
  detail = ("email", Value.text user.email) ∷ ("role", Value.text (role_text user.role)) ∷ [];
}

-- `inviteMember` up to the write: the e-mail, the hash and the role of the new member.
unfoldable pub invited : Api → User → Option InviteRequest → Exec Response (Text × Text × Role)
unfolding is_admin
invited api caller body = do
  fail_if (not (is_admin caller.role)) 403 "Only an administrator can invite members"
  req ← or_fail body 400 "invalid request body"
  let email = trim_space req.email
  fail_if (is_no_email email) 400 "A valid email is required"
  fail_if (ltb (byte_length req.password) min_password_len) 400
      "Password must be at least 10 characters"
  role ← invited_role caller req.role
  salt ← fresh_id
  hash ← or_fail (api.hash_password salt req.password) 500 "Could not create account"
  pure (email, hash, role)

-- `inviteMember`
unfoldable pub invite_member : Api → User → Option InviteRequest → Handler
unfolding invited role_text
invite_member api caller body = do
  (email, hash, role) ← invited api caller body
  user ← or_else invite_failure (create_member caller.org_id email hash role)
  try {E = Error} (audit (member_invited caller user))
  pure (json 201 (user_body user))
