-- ===== src/Authz/Entitled.antt =====
-- The tiers that ownership, administration and the live grants entitle a caller to, and the highest
-- of them as authz.go computes it from the answer of `BestGrantFor`.
use mathlib.Core.List.{Memᴰ}
use log_monitor_tenex.Prelude.{
  ℕ, ◌≤◌, ◌<◌, Bool, true, Option, none, some, List, [], ◌∷◌, ◌≡◌, refl, ap, ◌∙◌, ◌≢◌, ◌⊎◌, inl,
  inr, Bool-cases, arith,
}
use log_monitor_tenex.Store.Tables.{Role, User, Upload, AccessGrant, AccessLevel, is_admin}
use log_monitor_tenex.Store.Grants.{
  grants_access, covers, is_live, best_level, text_of_best, order, level_text, higher,
}
use log_monitor_tenex.Authz.Levels.{Level, rank}
use log_monitor_tenex.Authz.{granted_level, widened}

pub level_of : AccessLevel → Level
level_of AccessLevel.summary = Level.summary
level_of AccessLevel.dashboard = Level.dashboard
level_of AccessLevel.full = Level.full

granted_level-level_text : (l : AccessLevel) → granted_level (some (level_text l)) ≡ level_of l
unfolding granted_level level_text level_of
granted_level-level_text AccessLevel.summary = refl
granted_level-level_text AccessLevel.dashboard = refl
granted_level-level_text AccessLevel.full = refl

-- A grant that is live at `now` and covers the upload.
pub record IsCovering (caller : User) (up : Upload) (now : ℕ) (g : AccessGrant) : Type 0 where
  pub subject : g.subject_user_id ≡ caller.id
  pub org : g.org_id ≡ caller.org_id
  pub target : (g.upload_id ≡ none) ⊎ (g.upload_id ≡ some up.id)
  pub live : (g.expires_at ≡ none) ⊎ ((t : ℕ) × (g.expires_at ≡ some t) × (now < t))

-- The reasons for which a caller of the upload's organization holds a tier.
pub data IsEntitled (caller : User) (up : Upload) (now : ℕ) (grants : List AccessGrant)
    : Level → Type 0 where
  uploader : up.user_id ≡ caller.id → IsEntitled caller up now grants Level.full
  overseer : is_admin caller.role ≡ true → IsEntitled caller up now grants Level.dashboard
  grantee :
      (g : AccessGrant) {l : Level}
      → Memᴰ g grants
      → IsCovering caller up now g
      → l ≡ level_of g.level
      → IsEntitled caller up now grants l

covers_cases : (u : ℕ) (o : Option ℕ) → covers u o ≡ true → (o ≡ none) ⊎ (o ≡ some u)
covers_cases u none h = inl refl
covers_cases u (some v) h = inr (ground arith)

is_live_cases :
    (now : ℕ) (o : Option ℕ)
    → is_live now o ≡ true
    → (o ≡ none) ⊎ ((t : ℕ) × (o ≡ some t) × (now < t))
is_live_cases now none h = inl refl
is_live_cases now (some t) h = inr (t, refl, ground arith)

module _ (caller : User) (up : Upload) (now : ℕ) where
  abbrev pub test : AccessGrant → Bool
  test = grants_access caller.id caller.org_id up.id now

  pub IsCovering-test : (g : AccessGrant) → IsCovering caller up now g → test g ≡ true
  unfolding grants_access
  IsCovering-test g c = ground arith

  pub test-IsCovering : (g : AccessGrant) → test g ≡ true → IsCovering caller up now g
  unfolding grants_access
  test-IsCovering g h = record {
    subject = ground arith;
    org = ground arith;
    target = covers_cases up.id g.upload_id (ground arith);
    live = is_live_cases now g.expires_at (ground arith);
  }

-- The tier of a query's answer, 0 where there is none.
abbrev top : Option AccessLevel → ℕ
top none = 0
top (some l) = order l

higher-ge :
    (l : AccessLevel) (o : Option AccessLevel)
    → (order l ≤ order (higher l o)) × (top o ≤ order (higher l o))
unfolding higher
higher-ge l none = (omega arith, omega arith)
higher-ge l (some m) = ground arith

higher-cases :
    (l : AccessLevel) (o : Option AccessLevel) → (higher l o ≡ l) ⊎ (o ≡ some (higher l o))
unfolding higher
higher-cases l none = inl refl
higher-cases l (some m) = ground arith

module _ (p : AccessGrant → Bool) where
  best_level-ge :
      (gs : List AccessGrant) (g : AccessGrant)
      → Memᴰ g gs
      → p g ≡ true
      → order g.level ≤ top (best_level p gs)
  unfolding best_level
  best_level-ge [] g m h = elim m [ ]
  best_level-ge (x ∷ gs) g (Memᴰ.head e) h =
      rw (← e, h) (rw e (higher-ge x.level (best_level p gs)).0)
  best_level-ge (x ∷ gs) g (Memᴰ.tail m) h = elim (Bool-cases (p x)) [
    | inl hit ↦ rw hit (omega (arith, best_level-ge gs g m h, higher-ge x.level (best_level p gs)))
    | inr miss ↦ rw miss (best_level-ge gs g m h)
  ]

  best_level-mem :
      (gs : List AccessGrant) {l : AccessLevel}
      → best_level p gs ≡ some l
      → (g : AccessGrant) × Memᴰ g gs × (p g ≡ true) × (l ≡ g.level)
  unfolding best_level
  best_level-mem [] h = cc
  best_level-mem (x ∷ gs) {l} h = elim (Bool-cases (p x)) [
    | inl hit ↦ elim (higher-cases x.level (best_level p gs)) [
      | inl own ↦ (x, Memᴰ.head refl, hit, ground arith)
      | inr other ↦ let (g, m, t, e) = best_level-mem gs other in (g, Memᴰ.tail m, t, ground arith)
    ]
    | inr miss ↦
        let (g, m, t, e) = best_level-mem gs {l = l} (rw miss at h) in (g, Memᴰ.tail m, t, e)
  ]

-- The tier by administration and grants, for a caller who is not the uploader.
abbrev pub shared_level : User → ℕ → ℕ → List AccessGrant → Level
shared_level caller id now grants = widened caller.role (
    granted_level (text_of_best (best_level (grants_access caller.id caller.org_id id now) grants)))

abbrev granted : Option AccessLevel → Level
granted o = granted_level (text_of_best o)

rank-granted : (o : Option AccessLevel) → rank (granted o) ≡ top o
unfolding granted_level level_text order rank
rank-granted none = refl
rank-granted (some AccessLevel.summary) = refl
rank-granted (some AccessLevel.dashboard) = refl
rank-granted (some AccessLevel.full) = refl

rank-level_of : (l : AccessLevel) → rank (level_of l) ≡ order l
unfolding level_of order rank
rank-level_of AccessLevel.summary = refl
rank-level_of AccessLevel.dashboard = refl
rank-level_of AccessLevel.full = refl

pub rank-le-full : (l : Level) → rank l ≤ rank Level.full
unfolding rank
rank-le-full Level.none = omega arith
rank-le-full _ = omega arith

widened_bounds :
    (role : Role) (b : Level)
    → (rank b ≤ rank (widened role b))
      × (is_admin role ≡ true → rank Level.dashboard ≤ rank (widened role b))
unfolding widened rank
widened_bounds role b = (ground arith, ground arith)

widened-cases :
    (role : Role) (b : Level)
    → (widened role b ≡ b) ⊎ ((is_admin role ≡ true) × (widened role b ≡ Level.dashboard))
unfolding widened
widened-cases role b = ground arith

granted-cases :
    (o : Option AccessLevel)
    → (granted o ≡ Level.none) ⊎ ((l : AccessLevel) × (o ≡ some l) × (granted o ≡ level_of l))
unfolding granted_level
granted-cases none = inl refl
granted-cases (some l) = inr (l, refl, granted_level-level_text l)

module _ (caller : User) (up : Upload) (now : ℕ) (grants : List AccessGrant) where
  abbrev pub shared : Level
  shared = shared_level caller up.id now grants

  -- No tier that the caller is entitled to lies above the shared level of a non-uploader.
  pub shared-highest :
      up.user_id ≢ caller.id
      → {m : Level} → IsEntitled caller up now grants m
      → rank m ≤ rank shared
  shared-highest other (uploader e) = absurd (other e)
  shared-highest other (overseer a) = (widened_bounds caller.role _).1 a
  shared-highest other (grantee g {l = m} mem c e) = omega (
    arith,
    ap rank e,
    rank-level_of g.level,
    best_level-ge (test caller up now) grants g mem (IsCovering-test caller up now g c),
    rank-granted (best_level (test caller up now) grants),
    (widened_bounds caller.role (granted (best_level (test caller up now) grants))).0,
  )

  pub shared-IsEntitled : shared ≢ Level.none → IsEntitled caller up now grants shared
  shared-IsEntitled some_level =
      elim (widened-cases caller.role (granted (best_level (test caller up now) grants))) [
        | inr (a, e) ↦ rw e (overseer a)
        | inl e ↦ elim (granted-cases (best_level (test caller up now) grants)) [
          | inl nothing ↦ absurd (some_level (e ∙ nothing))
          | inr (l, best, e') ↦
              let (g, m, t, e'') = best_level-mem (test caller up now) grants best in
              grantee g m (test-IsCovering caller up now g t) (e ∙ e' ∙ ap level_of e'')
        ]
      ]

  pub IsEntitled-pos : {m : Level} → IsEntitled caller up now grants m → 0 < rank m
  unfolding rank level_of
  IsEntitled-pos (uploader e) = omega arith
  IsEntitled-pos (overseer a) = omega arith
  IsEntitled-pos (grantee g mem c e) = ground arith
