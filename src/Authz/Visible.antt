-- ===== src/Authz/Visible.antt =====
-- The visibility rule of the upload list agrees with the per-upload resolver.
use mathlib.Core.List.{Memᴰ}
use log_monitor_tenex.Prelude.{
  ℕ, Bool, true, some, List, [], ◌∷◌, ◌≡◌, refl, ◌⊎◌, ◌↔◌, inl, inr, Bool-cases, arith, find?, any,
}
use log_monitor_tenex.Store.Tables.{User, Upload, AccessGrant, is_admin}
use log_monitor_tenex.Store.Uploads.{visible, is_upload}
use log_monitor_tenex.World.{World, ok}
use log_monitor_tenex.Authz.Levels.{Level}
use log_monitor_tenex.Authz.{resolve}
use log_monitor_tenex.Authz.Entitled.{
  IsEntitled, uploader, overseer, grantee, level_of, test, IsCovering-test, test-IsCovering,
}
use log_monitor_tenex.Authz.Resolve.{resolve_highest, resolve_complete}

any-mem :
    (p : AccessGrant → Bool) (gs : List AccessGrant)
    → any p gs ≡ true
    → (g : AccessGrant) × Memᴰ g gs × (p g ≡ true)
any-mem p [] h = cc
any-mem p (x ∷ gs) h = elim (Bool-cases (p x)) [
  | inl hit ↦ (x, Memᴰ.head refl, hit)
  | inr miss ↦ let (g, m, t) = any-mem p gs (ground arith) in (g, Memᴰ.tail m, t)
]

mem-any :
    (p : AccessGrant → Bool) (gs : List AccessGrant) (g : AccessGrant)
    → Memᴰ g gs
    → p g ≡ true
    → any p gs ≡ true
mem-any p [] g m h = elim m [ ]
mem-any p (x ∷ gs) g (Memᴰ.head e) h = rw (← e, h)
mem-any p (x ∷ gs) g (Memᴰ.tail m) h = ground (arith, mem-any p gs g m h)

module _ (caller : User) (up : Upload) (now : ℕ) (grants : List AccessGrant) where
  visible-cases :
      visible caller now grants up ≡ true
      → (up.org_id ≡ caller.org_id)
        × ((up.user_id ≡ caller.id)
            ⊎ ((is_admin caller.role ≡ true) ⊎ (any (test caller up now) grants ≡ true)))
  unfolding visible
  visible-cases h = ground arith

  visible-IsEntitled :
      visible caller now grants up ≡ true → (m : Level) × IsEntitled caller up now grants m
  visible-IsEntitled h = elim (visible-cases h).1 [
    | inl own ↦ (Level.full, uploader own)
    | inr (inl a) ↦ (Level.dashboard, overseer a)
    | inr (inr some_grant) ↦
        let (g, m, t) = any-mem (test caller up now) grants some_grant in
        (level_of g.level, grantee g m (test-IsCovering caller up now g t) refl)
  ]

  IsEntitled-visible :
      up.org_id ≡ caller.org_id
      → {m : Level} → IsEntitled caller up now grants m
      → visible caller now grants up ≡ true
  unfolding visible
  IsEntitled-visible org (uploader own) = ground arith
  IsEntitled-visible org (overseer a) = ground arith
  IsEntitled-visible org (grantee g m c e) =
      rw org (
        ground (arith, mem-any (test caller up now) grants g m (IsCovering-test caller up now g c)))

-- Where no call fails, an upload meets the WHERE clause of the list exactly when `Resolve` finds a
-- level for it.
pub visible_iff_resolves :
    (caller : User) (w : World) (up : Upload)
    → w.faults ≡ []
    → find? (is_upload up.id) w.db.uploads ≡ some up
    → (visible caller w.now w.db.access_grants up ≡ true)
      ↔ ((l : Level) × ((resolve caller up.id w).0 ≡ ok (l, up)))
visible_iff_resolves caller w up quiet found = (
  λ h.
      let org = (visible-cases caller up w.now w.db.access_grants h).0 in
      let (m, e) = visible-IsEntitled caller up w.now w.db.access_grants h in
      let (l, r, _) = resolve_complete caller w up quiet found org e in (l, r),
  λ t.
      let (l, r) = t in
      let (_, org, e, _) = resolve_highest caller up.id w r in
      IsEntitled-visible caller up w.now w.db.access_grants org e,
)
