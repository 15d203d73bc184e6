-- ===== src/Authz/Resolve.antt =====
-- backend/gateway/internal/authz/authz.go, `Resolve`: it returns the highest tier that ownership,
-- administration and the live grants entitle the caller to.
use native.Mathlib.Decide.{ℕ_discrete}
use log_monitor_tenex.Prelude.{
  ℕ, ◌≤◌, some, List, [], ◌≡◌, ap, ◌≢◌, ◌⊎◌, inl, inr, ==_iff, find?-holds, arith, find?,
}
use log_monitor_tenex.Store.Tables.{User, Upload, AccessGrant}
use log_monitor_tenex.Store.Grants.{best_grant_for}
use log_monitor_tenex.Store.Uploads.{upload_by_id, is_upload}
use log_monitor_tenex.World.{◌>>=◌, World, ok}
use log_monitor_tenex.Authz.Levels.{Level, rank}
use log_monitor_tenex.Authz.Entitled.{
  IsEntitled, uploader, shared_level, shared-highest, shared-IsEntitled, IsEntitled-pos,
  rank-le-full,
}
use log_monitor_tenex.Authz.{resolve}

resolve-ok :
    (caller : User) (id : ℕ) (w : World) {l : Level} {up : Upload}
    → (resolve caller id w).0 ≡ ok (l, up)
    → (find? (is_upload id) w.db.uploads ≡ some up)
      × (up.org_id ≡ caller.org_id)
      × (((up.user_id ≡ caller.id) × (l ≡ Level.full))
          ⊎ ((up.user_id ≢ caller.id)
              × (l ≢ Level.none)
              × (l ≡ shared_level caller id w.now w.db.access_grants)))
unfolding resolve upload_by_id best_grant_for ◌>>=◌
resolve-ok caller id w {l} {up} h = ground arith

found_id :
    (id : ℕ) (us : List Upload) {up : Upload} → find? (is_upload id) us ≡ some up → up.id ≡ id
found_id id us h = (==_iff _ id).0 (find?-holds (is_upload id) us h)

abbrev IsHighest : User → Upload → ℕ → List AccessGrant → Level → Type 0
IsHighest caller up now grants l =
    IsEntitled caller up now grants l
    × ((m : Level) → IsEntitled caller up now grants m → rank m ≤ rank l)

module _ (caller : User) (up : Upload) (now : ℕ) (grants : List AccessGrant) where
  abbrev theirs : Level
  theirs = shared_level caller up.id now grants

  full-IsHighest : up.user_id ≡ caller.id → IsHighest caller up now grants Level.full
  full-IsHighest own = (uploader own, λ m _. rank-le-full m)

  theirs-IsHighest :
      up.user_id ≢ caller.id → theirs ≢ Level.none → IsHighest caller up now grants theirs
  theirs-IsHighest other some_level = (
    shared-IsEntitled caller up now grants some_level,
    λ m e. shared-highest caller up now grants other e,
  )

  theirs_some :
      up.user_id ≢ caller.id → {m : Level} → IsEntitled caller up now grants m → theirs ≢ Level.none
  unfolding rank
  theirs_some other e nothing = omega (
    arith,
    shared-highest caller up now grants other e,
    IsEntitled-pos caller up now grants e,
    ap rank nothing,
  )

-- A level that `Resolve` returns belongs to an upload of the caller's own organization, the caller
-- is entitled to it, and to none above it.
pub resolve_highest :
    (caller : User) (id : ℕ) (w : World) {l : Level} {up : Upload}
    → (resolve caller id w).0 ≡ ok (l, up)
    → (up.id ≡ id)
      × (up.org_id ≡ caller.org_id)
      × IsEntitled caller up w.now w.db.access_grants l
      × ((m : Level) → IsEntitled caller up w.now w.db.access_grants m → rank m ≤ rank l)
resolve_highest caller id w {l} {up} h =
    let (found, org, how) = resolve-ok caller id w h in
    let e = found_id id w.db.uploads found in
    let highest : IsHighest caller up w.now w.db.access_grants l = elim how [
      | inl (own, full) ↦ rw full (full-IsHighest caller up w.now w.db.access_grants own)
      | inr (other, some_level, shares) ↦ rw shares (
          rw (← e) (
            theirs-IsHighest caller up w.now w.db.access_grants other
              (λ nothing. some_level (rw (shares, ← e) nothing))))
    ] in
    (e, org, highest.0, highest.1)

module _ (caller : User) (w : World) (up : Upload) where
  resolve-own :
      w.faults ≡ []
      → find? (is_upload up.id) w.db.uploads ≡ some up
      → up.org_id ≡ caller.org_id
      → up.user_id ≡ caller.id
      → (resolve caller up.id w).0 ≡ ok (Level.full, up)
  unfolding resolve upload_by_id ◌>>=◌
  resolve-own quiet found org own = ground arith

  resolve-other :
      w.faults ≡ []
      → find? (is_upload up.id) w.db.uploads ≡ some up
      → up.org_id ≡ caller.org_id
      → up.user_id ≢ caller.id
      → shared_level caller up.id w.now w.db.access_grants ≢ Level.none
      → (resolve caller up.id w).0 ≡ ok (shared_level caller up.id w.now w.db.access_grants, up)
  unfolding resolve upload_by_id best_grant_for ◌>>=◌
  resolve-other quiet found org other some_level = ground arith

-- Where no call fails, `Resolve` finds a level for every caller of the upload's organization who
-- is entitled to one, and it is at least that one.
pub resolve_complete :
    (caller : User) (w : World) (up : Upload) {m : Level}
    → w.faults ≡ []
    → find? (is_upload up.id) w.db.uploads ≡ some up
    → up.org_id ≡ caller.org_id
    → IsEntitled caller up w.now w.db.access_grants m
    → (l : Level) × ((resolve caller up.id w).0 ≡ ok (l, up)) × (rank m ≤ rank l)
resolve_complete caller w up {m} quiet found org e = elim (ℕ_discrete up.user_id caller.id) [
  | yes own ↦ (Level.full, resolve-own caller w up quiet found org own, rank-le-full m)
  | no other ↦ (
    shared_level caller up.id w.now w.db.access_grants,
    resolve-other caller w up quiet found org other
        (theirs_some caller up w.now w.db.access_grants other e),
    shared-highest caller up w.now w.db.access_grants other e,
  )
]
