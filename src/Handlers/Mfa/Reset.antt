-- ===== src/Handlers/Mfa/Reset.antt =====
-- mfa.go, `resetMemberMFA`: whose second factor an administrator may reset.
use log_monitor_tenex.Prelude.{
  ℕ, Text, true, false, not, none, some, ◌≡◌, sym, ◌≢◌, ◌==◌, inl, inr, arith, find?, keep_if,
  update_if, Option-cases,
}
use log_monitor_tenex.Store.Tables.{User, Db, is_admin}
use log_monitor_tenex.Store.Users.{user_by_id, user_of, has_id}
use log_monitor_tenex.Store.Mfa.{disable_mfa}
use log_monitor_tenex.Store.Grants.{audit}
use log_monitor_tenex.Store.Rules.{store_rules}
use log_monitor_tenex.Api.{Api}
use log_monitor_tenex.Http.{Response, serve}
use log_monitor_tenex.Http.Rules.{handler_rules}
use log_monitor_tenex.World.{World, ok}
use log_monitor_tenex.World.Rules.{Reads, bind-ok}
use log_monitor_tenex.Handlers.Mfa.{reset_member_mfa, resettable}

Reads-resettable :
    (api : Api) (caller : User) (path_id : Text) → Reads (resettable api caller path_id)
unfolding resettable
Reads-resettable api caller path_id = search (handler_rules, store_rules) depth 40

-- What is true of the member whose second factor a caller may reset.
abbrev pub IsResettable : Api → Db → User → Text → User → Type 0
IsResettable api db caller path_id target =
    (is_admin caller.role ≡ true)
    × (id : ℕ) × (api.parse_uuid path_id ≡ some id)
    × (id ≢ caller.id)
    × (user_of (find? (has_id id) db.users) ≡ some target)
    × (target.org_id ≡ caller.org_id)

resettable_sound :
    (api : Api) (caller : User) (path_id : Text) (w : World) {target : User}
    → (resettable api caller path_id w).0 ≡ ok target
    → IsResettable api w.db caller path_id target
unfolding resettable serve user_by_id
resettable_sound api caller path_id w {target} h = elim (Option-cases (api.parse_uuid path_id)) [
  | inl bad ↦ absurd (ground arith)
  | inr (i, e) ↦ elim (Option-cases (user_of (find? (has_id i) w.db.users))) [
    | inl missing ↦ absurd (ground arith)
    | inr (u, f) ↦ (ground arith, i, e, ground arith, ground arith, ground arith)
  ]
]

-- The second factor of one user is gone, with the recovery codes.
abbrev pub IsReset : ℕ → Db → Db → Type 0
IsReset id before after =
    (after.users
      ≡ update_if (has_id id) (λ r. record r { totp_enabled = false; totp_secret = none })
          before.users)
    × (after.recovery_codes ≡ keep_if (λ c. not (c.user_id == id)) before.recovery_codes)

write-IsReset :
    (api : Api) (caller : User) (path_id : Text) (w : World) {target : User} {r : Response}
    → (resettable api caller path_id w).0 ≡ ok target
    → (reset_member_mfa api caller path_id w).0 ≡ ok r
    → IsReset target.id
        (resettable api caller path_id w).1.db
        (reset_member_mfa api caller path_id w).1.db
unfolding reset_member_mfa disable_mfa audit serve
write-IsReset api caller path_id w {target} {r} checked h = (ground arith, ground arith)

IsReset-moved : (id : ℕ) (d d' after : Db) → d ≡ d' → IsReset id d after → IsReset id d' after
IsReset-moved id d d' after same gone = rw (sym same) gone

-- A reset that succeeds was asked for by an administrator, for another user of the same
-- organization; that user's second factor is off, without secret and recovery codes, and the other
-- users and codes are as they were.
pub reset_member_mfa_sound :
    (api : Api) (caller : User) (path_id : Text) (w : World) {r : Response}
    → (reset_member_mfa api caller path_id w).0 ≡ ok r
    → (target : User) × IsResettable api w.db caller path_id target
      × IsReset target.id w.db (reset_member_mfa api caller path_id w).1.db
unfolding reset_member_mfa
reset_member_mfa_sound api caller path_id w {r} h =
    let (target, e, _) = bind-ok (resettable api caller path_id) _ w h in
    (
      target,
      resettable_sound api caller path_id w e,
      IsReset-moved target.id (resettable api caller path_id w).1.db w.db
          (reset_member_mfa api caller path_id w).1.db ((Reads-resettable api caller path_id).at w)
          (write-IsReset api caller path_id w e h),
    )
