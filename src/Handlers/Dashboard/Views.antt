-- ===== src/Handlers/Dashboard/Views.antt =====
-- What a caller may see of the figures, and the queries of the dashboard that see no more than that.
use log_monitor_tenex.Prelude.{
  ℕ, Text, Bool, true, Option, some, List, [], ◌∷◌, ◌≡◌, ◌⊎◌, refl, sym, ap, ◌∙◌, ◌&&◌, ◌||◌, ◌==◌,
  arith, keep_if, map, length, Bool-cases, inl, inr, take,
}
use log_monitor_tenex.Store.Tables.{StatusRollup, User, Upload, LogRow, Rollup, Grain, Db, is_admin}
use log_monitor_tenex.Store.Series.{dashboard_series, status_codes, status_in, breakdowns, grain_of}
use log_monitor_tenex.Store.Dashboard.{
  Scope, Dimension, in_scope, in_tenancy, rollup_in, row_in, upload_in, rollup_of_tenant, hourly,
  latencies_in, uploads_in, starts_of, dashboard_summary, dashboard_top, most_first, by_label,
  limit_or,
}
use log_monitor_tenex.Store.Ingest.Rollups.{latencies}
use log_monitor_tenex.World.{World, Exec, Result, ok, Error, pure, select, fails, called, ◌>>=◌}
use log_monitor_tenex.World.Rules.{Result-cases, bind-run, bind-fail}

-- What a caller may see: the organization's rows for an administrator, else the caller's own.
abbrev pub may_see : User → ℕ → ℕ → Bool
may_see caller org user = org == caller.org_id && (is_admin caller.role || user == caller.id)

-- The tables of the figures cut down to such rows.
abbrev pub cut_down : User → Db → Db
cut_down caller d = record d {
  entry_rollups =
      keep_if (λ (r : Rollup). may_see caller r.bucket.org_id r.bucket.user_id) d.entry_rollups;
  status_rollups =
      keep_if (λ (r : StatusRollup). may_see caller r.org_id r.user_id) d.status_rollups;
  log_entries = keep_if (λ (r : LogRow). may_see caller r.org_id r.user_id) d.log_entries;
  uploads = keep_if (λ (u : Upload). may_see caller u.org_id u.user_id) d.uploads;
}

abbrev pub as_seen : User → World → World
as_seen caller w = record w { db = cut_down caller w.db }

-- Keeping fewer rows first makes no difference.
keep_if-twice {ℓ} :
    {A : Type ℓ} (p q : A → Bool) (xs : List A)
    → ((x : A) → p x ≡ true → q x ≡ true)
    → keep_if p (keep_if q xs) ≡ keep_if p xs
keep_if-twice p q [] h = refl
keep_if-twice p q (x ∷ xs) h = elim (Bool-cases (p x)) [
  | inl e ↦ ground (arith, h x e, e, keep_if-twice p q xs h)
  | inr e ↦ ground (arith, e, keep_if-twice p q xs h)
]

-- A scope that the caller may ask for.
abbrev pub Fair : User → Scope → Type 0
Fair caller sc =
    (sc.org_id ≡ caller.org_id) × ((is_admin caller.role ≡ true) ⊎ (sc.user_id ≡ some caller.id))

module _ (caller : User) where
  -- It answers the same where the other rows are gone.
  pub record Blind {E A : Type 0} (m : Exec E A) : Type 0 where
    pub at : (w : World) → (m (as_seen caller w)).0 ≡ (m w).0
    after : (w : World) → (m (as_seen caller w)).1 ≡ as_seen caller (m w).1

  Blind-select :
      {A : Type 0} (f : World → Result Error A)
      → ((w : World) → f (as_seen caller w) ≡ f w)
      → Blind (select f)
  unfolding select fails called
  Blind-select f h = record { at = λ w. ground (arith, h w); after = λ w. ground arith }

  Blind-pure : {E A : Type 0} (a : A) → Blind {E = E} (pure a)
  unfolding ◌>>=◌
  Blind-pure a = record { at = λ w. refl; after = λ w. refl }

  Blind-bind :
      {E A B : Type 0} (m : Exec E A) (f : A → Exec E B)
      → Blind m
      → ((a : A) → Blind (f a))
      → Blind (m >>= f)
  Blind-bind {E} {A} {B} m f hm hf = record { at = λ w. (both w).0; after = λ w. (both w).1 }
    where
      both :
          (w : World)
          → (((m >>= f) (as_seen caller w)).0 ≡ ((m >>= f) w).0)
            × (((m >>= f) (as_seen caller w)).1 ≡ as_seen caller ((m >>= f) w).1)
      both w = elim (Result-cases (m w).0) [
        | inl (a, q) ↦
            let v = (m w).1 in
            let here = bind-run m f w q in
            let there = bind-run m f (as_seen caller w) (hm.at w ∙ q) ∙ ap (f a) (hm.after w) in
            (
              ap (λ (r : Result E B × World). r.0) there
                  ∙ (hf a).at v
                  ∙ sym (ap (λ (r : Result E B × World). r.0) here),
              ap (λ (r : Result E B × World). r.1) there
                  ∙ (hf a).after v
                  ∙ sym (ap (λ (r : Result E B × World). as_seen caller r.1) here),
            )
        | inr (e, q) ↦
            let here = bind-fail m f w q in
            let there = bind-fail m f (as_seen caller w) (hm.at w ∙ q) in
            (
              ap (λ (r : Result E B × World). r.0) there
                  ∙ sym (ap (λ (r : Result E B × World). r.0) here),
              ap (λ (r : Result E B × World). r.1) there
                  ∙ hm.after w
                  ∙ sym (ap (λ (r : Result E B × World). as_seen caller r.1) here),
            )
      ]

  module _ (sc : Scope) (fair : Fair caller sc) where
    seen_user :
        (org user : ℕ)
        → sc.user_id ≡ some caller.id
        → in_tenancy sc org user ≡ true
        → may_see caller org user ≡ true
    unfolding in_tenancy
    seen_user org user e h = ground (arith, fair.0, e)

    sees : (org user : ℕ) → in_tenancy sc org user ≡ true → may_see caller org user ≡ true
    unfolding in_tenancy
    sees org user h = elim fair.1 [
      | inl e ↦ ground (arith, fair.0, e)
      | inr e ↦ seen_user org user e h
    ]

    scoped :
        (org user : ℕ) (t : Option ℕ)
        → in_scope sc org user t ≡ true
        → may_see caller org user ≡ true
    unfolding in_scope
    scoped org user t h = sees org user (ground arith)

    same_hourly : (d : Db) → hourly sc (cut_down caller d) ≡ hourly sc d
    same_hourly d =
        keep_if-twice (rollup_in sc Grain.hour)
          (λ (r : Rollup). may_see caller r.bucket.org_id r.bucket.user_id) d.entry_rollups
          (λ r h.
            scoped r.bucket.org_id r.bucket.user_id (some r.bucket.bucket_start) (ground arith))

    same_rows :
        (d : Db)
        → keep_if (row_in sc) (cut_down caller d).log_entries ≡ keep_if (row_in sc) d.log_entries
    same_rows d =
        keep_if-twice (row_in sc) (λ (r : LogRow). may_see caller r.org_id r.user_id) d.log_entries
          (λ r h. scoped r.org_id r.user_id r.entry.ts h)

    same_uploads : (d : Db) → uploads_in sc (cut_down caller d) ≡ uploads_in sc d
    same_uploads d =
        ap (λ (us : List Upload). length us)
          (keep_if-twice (upload_in sc) (λ (u : Upload). may_see caller u.org_id u.user_id)
            d.uploads (λ u h. scoped u.org_id u.user_id (some u.created_at) h))

    same_starts : (d : Db) → starts_of sc (cut_down caller d) ≡ starts_of sc d
    same_starts d = ap (map (λ (r : Rollup). r.bucket.bucket_start)) (
        keep_if-twice (rollup_of_tenant sc)
          (λ (r : Rollup). may_see caller r.bucket.org_id r.bucket.user_id) d.entry_rollups
          (λ r h. sees r.bucket.org_id r.bucket.user_id h))

    pub Blind-summary : Blind (dashboard_summary sc)
    unfolding dashboard_summary
    Blind-summary =
        Blind-bind (select (λ w. ok (hourly sc w.db))) _
          (Blind-select _ (λ w. ap (λ x. ok x) (same_hourly w.db)))
          (λ rollups.
            Blind-bind (select (λ w. ok (latencies_in sc w.db))) _
              (Blind-select _
                (λ w. ap (λ (rows : List LogRow). ok (latencies rows)) (same_rows w.db)))
              (λ ms.
                Blind-bind (select (λ w. ok (uploads_in sc w.db))) _
                  (Blind-select _ (λ w. ap (λ x. ok x) (same_uploads w.db)))
                  (λ uploads.
                    Blind-bind (select (λ w. ok (starts_of sc w.db))) _
                      (Blind-select _ (λ w. ap (λ x. ok x) (same_starts w.db)))
                      (λ starts. Blind-pure _))))

    same_codes :
        (d : Db)
        → keep_if (status_in sc) (cut_down caller d).status_rollups
          ≡ keep_if (status_in sc) d.status_rollups
    same_codes d =
        keep_if-twice (status_in sc) (λ (r : StatusRollup). may_see caller r.org_id r.user_id)
          d.status_rollups (λ r h. scoped r.org_id r.user_id (some r.bucket_start) h)

    pub Blind-codes : Blind (status_codes sc)
    unfolding status_codes
    Blind-codes =
        Blind-select _
          (λ w. ap (λ (rows : List StatusRollup). ok (breakdowns rows)) (same_codes w.db))

    same_rollups :
        (grain : Grain) (d : Db)
        → keep_if (rollup_in sc grain) (cut_down caller d).entry_rollups
          ≡ keep_if (rollup_in sc grain) d.entry_rollups
    same_rollups grain d =
        keep_if-twice (rollup_in sc grain)
          (λ (r : Rollup). may_see caller r.bucket.org_id r.bucket.user_id) d.entry_rollups
          (λ r h.
            scoped r.bucket.org_id r.bucket.user_id (some r.bucket.bucket_start) (ground arith))

    pub Blind-series : (grain : Text) → Blind (dashboard_series sc grain)
    unfolding dashboard_series
    Blind-series grain =
        Blind-select _ (λ w. rw (same_rollups (grain_of grain) w.db, same_rows w.db) refl)

    pub Blind-top : (dim : Dimension) (limit : ℕ) → Blind (dashboard_top sc dim limit)
    unfolding dashboard_top
    Blind-top dim limit = Blind-select _ (λ w.
        ap
          (λ (rows : List LogRow).
            ok (take (limit_or 10 100 limit) (most_first (by_label dim rows))))
          (same_rows w.db))
