-- ===== src/Examples/Commands.antt =====
-- Commands of the sample organization's users.
use log_monitor_tenex.Prelude.{
  ℕ, ◌≤◌, codes, true, false, Option, none, some, [], ◌∷◌, ◌++◌, ◌≡◌, refl, arith, any, trim_space,
}
use log_monitor_tenex.Store.Tables.{User, Role, is_admin}
use log_monitor_tenex.Store.Grants.{GrantInput, audit}
use log_monitor_tenex.Store.Grants.Unique.{count_for}
use log_monitor_tenex.Store.Users.{create_member, insert_user, has_email}
use log_monitor_tenex.Store.Analyses.{create_analysis, new_analysis, fail_analysis}
use log_monitor_tenex.Queue.{publish_analysis}
use log_monitor_tenex.World.{World}
use log_monitor_tenex.Http.{serve}
use log_monitor_tenex.Handlers.Refusals.{refused_changes_nothing, handle, reset_command}
use log_monitor_tenex.Handlers.Mfa.{reset_member_mfa}
use log_monitor_tenex.Handlers.Org.{InviteRequest, invite_member, invited, invited_role}
use log_monitor_tenex.Handlers.Auth.{is_no_email}
use log_monitor_tenex.Handlers.Org.Invite.{invite_member_sound}
use log_monitor_tenex.Handlers.Request.{byte_length}
use log_monitor_tenex.Handlers.Analyses.{launch_analysis}
use log_monitor_tenex.Handlers.Analyses.Launch.{launch_queues, launch_fails}
use log_monitor_tenex.Examples.Sample.{gateway, start, bob, upload, grant}

refused_changes_nothing_example :
    (handle gateway bob (reset_command (2 ∷ [])) start).1.db ≡ start.db
unfolding reset_member_mfa is_admin serve
refused_changes_nothing_example =
    refused_changes_nothing gateway bob (reset_command (2 ∷ [])) start refl

abbrev newcomer : InviteRequest
newcomer = record { email = codes "e@x"; password = codes "long enough"; role = codes "admin" }

invite_member_sound_example :
    (u : User) × (u.org_id ≡ 7)
    × ((is_admin bob.role ≡ true)
        × (u.email ≡ codes "e@x")
        × (u.role ≡ Role.owner → bob.role ≡ Role.owner))
    × ((any (has_email u.email) start.db.users ≡ false)
        × ((invite_member gateway bob (some newcomer) start).1.db.users
            ≡ start.db.users ++ record { user = u; totp_enabled = false; totp_secret = none } ∷ []))
unfolding invite_member invited invited_role is_no_email trim_space byte_length create_member
    insert_user audit serve
invite_member_sound_example = invite_member_sound gateway bob newcomer start refl

launch_queues_example :
    (launch_analysis gateway upload (codes "file") none 3 start).1.db.analyses
    ≡ start.db.analyses ++ new_analysis 100 7 5 (codes "file") none 1000 ∷ []
unfolding launch_analysis create_analysis publish_analysis serve
launch_queues_example = (launch_queues gateway upload (codes "file") none 3 start refl).0

-- The queue does not answer.
abbrev no_redis : World
no_redis = record start { faults = false ∷ true ∷ [] }

launch_fails_example : (launch_analysis gateway upload (codes "file") none 3 no_redis).1.jobs ≡ []
unfolding launch_analysis create_analysis publish_analysis fail_analysis serve
launch_fails_example = (launch_fails gateway upload (codes "file") none 3 no_redis refl).0

abbrev raise_to_full : GrantInput
raise_to_full = record {
  org_id = 7;
  upload_id = some 5;
  subject_user_id = 4;
  level = codes "full";
  granted_by = 1;
  expires_at = none;
}

one_grant : (org : ℕ) (for : Option ℕ) (subject : ℕ) → count_for org for subject (grant ∷ []) ≤ 1
one_grant org for subject = ground arith
