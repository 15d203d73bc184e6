-- ===== src/Handlers/Grants/Safety.antt =====
-- grants.go: who may change the table of grants, and what is left alone.
use log_monitor_tenex.Prelude.{Text, Option, none, some}
use log_monitor_tenex.Store.Tables.{User}
use log_monitor_tenex.Store.Rules.{store_rules}
use log_monitor_tenex.World.Rules.{Reads, Clean}
use log_monitor_tenex.Http.Rules.{handler_rules}
use log_monitor_tenex.Api.{Api}
use log_monitor_tenex.Handlers.Grants.{
  GrantRequest, checked_grant, create_grant, delete_grant_handler, shareable,
}

ruleset rules = (handler_rules, store_rules)

pub Reads-shareable :
    (api : Api) (caller subject : User) (upload : Option Text)
    → Reads (shareable api caller subject upload)
unfolding shareable
Reads-shareable api caller subject none = search rules depth 30
Reads-shareable api caller subject (some text) = search rules depth 30

pub Reads-checked_grant :
    (api : Api) (caller : User) (body : Option GrantRequest) → Reads (checked_grant api caller body)
unfolding checked_grant
Reads-checked_grant api caller body = search (Reads-shareable, rules) depth 40

-- Whatever goes wrong, a refused request for a grant changes nothing in the database.
pub create_grant-Clean :
    (api : Api) (caller : User) (body : Option GrantRequest) → Clean (create_grant api caller body)
unfolding create_grant
create_grant-Clean api caller body = search (Reads-checked_grant, rules) depth 40

pub delete_grant_handler-Clean :
    (api : Api) (caller : User) (path_id : Text) → Clean (delete_grant_handler api caller path_id)
unfolding delete_grant_handler
delete_grant_handler-Clean api caller path_id = search rules depth 40
