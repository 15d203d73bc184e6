-- ===== src/Store/Mfa.antt =====
-- backend/gateway/internal/store/mfa.go: the second factor of a user, and its recovery codes.
use log_monitor_tenex.Prelude.{
  ℕ, suc, Text, Bool, true, false, not, Option, none, some, List, [], ◌∷◌, ◌++◌, ◌&&◌, ◌==◌,
  if◌then◌else◌, find?, keep_if, any, update_if, length, map,
}
use log_monitor_tenex.Store.Tables.{Organization, UserRow, RecoveryCode, Db}
use log_monitor_tenex.Store.Users.{has_id}
use log_monitor_tenex.World.{
  Exec, Result, ok, err, Error, not_found, no_recovery_code, select, update, ◌>>=◌,
}

pub record MfaState : Type 0 where
  pub enabled : Bool
  pub secret : Option Text
  pub org_require : Bool

abbrev org_of : ℕ → List Organization → Option Organization
org_of id os = find? (λ o. o.id == id) os

abbrev pub joined : Option UserRow → List Organization → Result Error MfaState
joined none os = err not_found
joined (some r) os = elim (org_of r.user.org_id os) [
  | none ↦ err not_found
  | some o ↦
      ok (record { enabled = r.totp_enabled; secret = r.totp_secret; org_require = o.require_mfa })
]

-- `MFAState`
unfoldable pub mfa_state : ℕ → Exec Error MfaState
mfa_state user = select λ w. joined (find? (has_id user) w.db.users) w.db.organizations

abbrev set_users : (UserRow → Bool) → (UserRow → UserRow) → Db → Db
set_users p f d = record d { users = update_if p f d.users }

-- `StagePendingSecret`
unfoldable pub stage_pending_secret : ℕ → Text → Exec Error Unit
stage_pending_secret user sealed = update λ w. ok (
  tt,
  set_users (has_id user) (λ r. record r { totp_enabled = false; totp_secret = some sealed }) w.db,
)

abbrev has_secret : UserRow → Bool
has_secret r = elim r.totp_secret [ none ↦ false | some s ↦ true ]

-- The codes that a user enrols with, numbered from `id`.
unfoldable pub new_codes : ℕ → ℕ → List Text → List RecoveryCode
new_codes user id [] = []
new_codes user id (h ∷ hs) =
    record { id = id; user_id = user; code_hash = h; used = false } ∷ new_codes user (suc id) hs

abbrev of_others : ℕ → List RecoveryCode → List RecoveryCode
of_others user cs = keep_if (λ c. not (c.user_id == user)) cs

abbrev activated : ℕ → List Text → ℕ → Db → Db
activated user hashes id d = record d {
  users =
      update_if (λ r. has_id user r && has_secret r) (λ r. record r { totp_enabled = true })
        d.users;
  recovery_codes = of_others user d.recovery_codes ++ new_codes user id hashes;
}

-- Identifiers for as many rows.
unfoldable pub fresh_ids : ℕ → Exec Error ℕ
fresh_ids n w = (ok w.fresh, record w { fresh = Prim.Native.Nat.◌+◌ w.fresh n })

-- `ActivateMFA`: one transaction.
unfoldable pub activate_mfa : ℕ → List Text → Exec Error Unit
unfolding fresh_ids new_codes
activate_mfa user hashes = do
  id ← fresh_ids (length hashes)
  update (λ w. ok (tt, activated user hashes id w.db))

abbrev disabled : ℕ → Db → Db
disabled user d = record d {
  users =
      update_if (has_id user) (λ r. record r { totp_enabled = false; totp_secret = none }) d.users;
  recovery_codes = of_others user d.recovery_codes;
}

-- `DisableMFA`: one transaction.
unfoldable pub disable_mfa : ℕ → Exec Error Unit
disable_mfa user = update λ w. ok (tt, disabled user w.db)

abbrev pub is_unused_of : ℕ → RecoveryCode → Bool
is_unused_of user c = c.user_id == user && not c.used

-- The map of Go as an association list; whoever ranges over it takes an order of its own.
abbrev pub hash_map : List RecoveryCode → List (ℕ × Text)
hash_map codes = map (λ (c : RecoveryCode). (c.id, c.code_hash)) codes

-- `UnusedRecoveryHashes`: the identifiers of a user's unused codes with their hashes.
unfoldable pub unused_recovery_hashes : ℕ → Exec Error (List (ℕ × Text))
unused_recovery_hashes user =
    select λ w. ok (hash_map (keep_if (is_unused_of user) w.db.recovery_codes))

abbrev pub is_unused_code : ℕ → RecoveryCode → Bool
is_unused_code id c = c.id == id && not c.used

abbrev burnt : ℕ → Db → Db
burnt id d = record d {
  recovery_codes = update_if (is_unused_code id) (λ c. record c { used = true }) d.recovery_codes;
}

-- `BurnRecoveryCode`: no row affected is `ErrNoRecoveryCode`.
unfoldable pub burn_recovery_code : ℕ → Exec Error Unit
burn_recovery_code id = update λ w.
    if any (is_unused_code id) w.db.recovery_codes
    then ok (tt, burnt id w.db)
    else err no_recovery_code

-- `SetOrgRequireMFA`
unfoldable pub set_org_require_mfa : ℕ → Bool → Exec Error Unit
set_org_require_mfa org required = update λ w. ok (
  tt,
  record (w.db) {
    organizations =
        update_if (λ o. o.id == org) (λ o. record o { require_mfa = required }) w.db.organizations;
  },
)
