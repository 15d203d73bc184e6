-- ===== src/Handlers/Dashboard/SameRule.antt =====
-- The worklist and the search show findings of uploads that the caller sees in the list of uploads.
use log_monitor_tenex.Prelude.{
  ℕ, zero, suc, Text, Bool, true, Option, none, some, List, [], ◌∷◌, ◌≡◌, refl, sym, ◌∙◌, ◌||◌,
  arith, all, any, take, id_eq?, length, ◌≤◌,
}
use log_monitor_tenex.Store.Tables.{User, Anomaly, AccessGrant}
use log_monitor_tenex.Store.Grants.{grants_access, covers, is_live}
use log_monitor_tenex.Store.Uploads.{visible}
use log_monitor_tenex.Store.Analyses.{by_urgency}
use log_monitor_tenex.Store.Dashboard.{limit_or}
use log_monitor_tenex.Store.Findings.{
  Finding, Hit, joined, finding_of, visible_finding, seen_by, keep_found, place_hit, not_expired,
  action_plan, search_findings_text, insert_hit, ranked, granted_finding,
}
use log_monitor_tenex.World.{World, select, fails, called, ok}

pub all-take {ℓ} :
    {A : Type ℓ} (p : A → Bool) (n : ℕ) (xs : List A) → all p xs ≡ true → all p (take n xs) ≡ true
all-take p zero xs h = refl
all-take p (suc n) [] h = refl
all-take p (suc n) (x ∷ xs) h = ground (arith, all-take p n xs)

all-keep_found :
    (p : Finding → Bool) (o : Option Finding) (xs : List Finding)
    → all p xs ≡ true
    → all p (keep_found p o xs) ≡ true
all-keep_found p none xs h = h
all-keep_found p (some x) xs h = ground arith

all-joined :
    (of : Anomaly → Option Finding) (p : Finding → Bool) (fs : List Anomaly)
    → all p (joined of p fs) ≡ true
all-joined of p [] = refl
all-joined of p (f ∷ fs) = all-keep_found p (of f) (joined of p fs) (all-joined of p fs)

module _ (p : Finding → Bool) (rank : Anomaly → Option ℕ) where
  all-insert_hit :
      (h : Hit) (hs : List Hit)
      → p h.finding ≡ true
      → all (λ k. p k.finding) hs ≡ true
      → all (λ k. p k.finding) (insert_hit h hs) ≡ true
  all-insert_hit h [] a b = ground arith
  all-insert_hit h (k ∷ ks) a b = ground (arith, all-insert_hit h ks)

  all-place_hit :
      (x : Finding) (o : Option ℕ) (hs : List Hit)
      → p x ≡ true
      → all (λ k. p k.finding) hs ≡ true
      → all (λ k. p k.finding) (place_hit x o hs) ≡ true
  all-place_hit x none hs a b = b
  all-place_hit x (some n) hs a b = all-insert_hit record { finding = x; rank = n } hs a b

  all-ranked :
      (xs : List Finding) → all p xs ≡ true → all (λ k. p k.finding) (ranked rank xs) ≡ true
  all-ranked [] h = refl
  all-ranked (x ∷ xs) h =
      all-place_hit x (rank x.anomaly) (ranked rank xs) (ground arith)
        (all-ranked xs (ground arith))

any-same {ℓ} :
    {A : Type ℓ} (p q : A → Bool) (xs : List A) → ((x : A) → p x ≡ q x) → any p xs ≡ any q xs
any-same p q [] h = refl
any-same p q (x ∷ xs) h = ground (arith, h x, any-same p q xs h)

same_target : (id : ℕ) (u : Option ℕ) → (id_eq? u (some id) || id_eq? u none) ≡ covers id u
same_target id none = refl
same_target id (some v) = ground arith

same_expiry : (now : ℕ) (t : Option ℕ) → not_expired now t ≡ is_live now t
same_expiry now none = refl
same_expiry now (some t) = refl

module _ (caller : User) (now : ℕ) where
  same_grant :
      (x : Finding) (g : AccessGrant)
      → granted_finding caller now x g ≡ grants_access caller.id x.upload.org_id x.upload.id now g
  unfolding grants_access
  same_grant x g = rw (same_target x.upload.id g.upload_id, same_expiry now g.expires_at) refl

  -- `visibilityClause` is the rule of `ListVisibleUploads`.
  pub same_rule :
      (grants : List AccessGrant) (x : Finding)
      → visible_finding caller now grants x ≡ visible caller now grants x.upload
  unfolding visible_finding visible
  same_rule grants x =
      rw
        (any-same (granted_finding caller now x)
          (grants_access caller.id x.upload.org_id x.upload.id now) grants (same_grant x))
        refl

pub select-value :
    {A : Type 0} (f : World → A) (w : World) {a : A} → (select (λ v. ok (f v)) w).0 ≡ ok a → a ≡ f w
unfolding select fails called
select-value f w h = ground arith

pub all-same {ℓ} :
    {A : Type ℓ} (p q : A → Bool) (xs : List A) → ((x : A) → p x ≡ q x) → all p xs ≡ all q xs
all-same p q [] h = refl
all-same p q (x ∷ xs) h = ground (arith, h x, all-same p q xs h)

length-take {ℓ} : {A : Type ℓ} (n : ℕ) (xs : List A) → length (take n xs) ≤ n
length-take zero xs = omega arith
length-take (suc n) [] = omega arith
length-take (suc n) (x ∷ xs) = omega (arith, length-take n xs)

limit_or-bound : (default most limit : ℕ) → default ≤ most → limit_or default most limit ≤ most
unfolding limit_or
limit_or-bound default most limit h = ground arith

pub length-limited {ℓ} :
    {A : Type ℓ} (default limit : ℕ) (xs : List A)
    → default ≤ 100
    → length (take (limit_or default 100 limit) xs) ≤ 100
length-limited default limit xs h =
    omega (arith, length-take (limit_or default 100 limit) xs, limit_or-bound default 100 limit h)

module _ (rank : Text → Anomaly → Option ℕ) (caller : User) (query : Text) (limit : ℕ)
    (w : World) where
  seen : Finding → Bool
  seen x = visible caller w.now w.db.access_grants x.upload

  all-seen_by : (fs : List Anomaly) → all seen (seen_by caller w fs) ≡ true
  unfolding seen
  all-seen_by fs =
      all-same seen (visible_finding caller w.now w.db.access_grants) (seen_by caller w fs)
        (λ x. sym (same_rule caller w.now w.db.access_grants x))
      ∙ all-joined (finding_of w.db) (visible_finding caller w.now w.db.access_grants) fs

  plan_visible :
      (plan : List Finding)
      → (action_plan caller limit w).0 ≡ ok plan
      → (all seen plan ≡ true) × (length plan ≤ 100)
  unfolding action_plan
  plan_visible plan h =
      let found = seen_by caller w (by_urgency w.db.anomalies) in
      rw
        (select-value
          (λ (v : World).
            take (limit_or 25 100 limit) (seen_by caller v (by_urgency v.db.anomalies)))
          w h)
        (
          all-take seen (limit_or 25 100 limit) found (all-seen_by (by_urgency w.db.anomalies)),
          length-limited 25 limit found (omega arith),
        )

  hits_visible :
      (hits : List Hit)
      → (search_findings_text rank caller query limit w).0 ≡ ok hits
      → (all (λ h. seen h.finding) hits ≡ true) × (length hits ≤ 100)
  unfolding search_findings_text
  hits_visible hits h =
      let found = seen_by caller w w.db.anomalies in
      rw
        (select-value
          (λ (v : World).
            take (limit_or 20 100 limit) (ranked (rank query) (seen_by caller v v.db.anomalies)))
          w h)
        (
          all-take (λ h. seen h.finding) (limit_or 20 100 limit) (ranked (rank query) found)
              (all-ranked seen (rank query) found (all-seen_by w.db.anomalies)),
          length-limited 20 limit (ranked (rank query) found) (omega arith),
        )

-- Every finding on the worklist, and every hit of a search, is one of an upload that the caller sees
-- in the list of uploads at that time, and neither is longer than a hundred.
pub findings_visible :
    (rank : Text → Anomaly → Option ℕ) (caller : User) (query : Text) (limit : ℕ) (w : World)
    (plan : List Finding) (hits : List Hit)
    → (action_plan caller limit w).0 ≡ ok plan
    → (search_findings_text rank caller query limit w).0 ≡ ok hits
    → (all (λ x. visible caller w.now w.db.access_grants x.upload) plan ≡ true)
      × (all (λ h. visible caller w.now w.db.access_grants h.finding.upload) hits ≡ true)
      × (length plan ≤ 100)
      × (length hits ≤ 100)
unfolding seen
findings_visible rank caller query limit w plan hits hp hh =
    let (a, b) = plan_visible rank caller query limit w plan hp in
    let (c, d) = hits_visible rank caller query limit w hits hh in (a, c, b, d)
