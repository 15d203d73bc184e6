-- ===== src/Handlers/Auth/Register.antt =====
-- Who registers can sign in.
use log_monitor_tenex.Prelude.{
  ℕ, suc, Text, Bool, true, false, some, List, [], ◌∷◌, ◌++◌, ◌≡◌, refl, ap, ◌∙◌, arith, any, all,
  find?, ltb, ◌==◌, ◌<◌, trim_space,
}
use log_monitor_tenex.Store.Tables.{Organization, User, UserRow, Role, Db}
use log_monitor_tenex.Store.Users.{
  has_id, has_email, create_org_with_owner, insert_user, new_user, new_row, new_organization,
}
use log_monitor_tenex.Api.{Api}
use log_monitor_tenex.Http.{Handler, Response}
use log_monitor_tenex.Http.Rules.{
  handler_rules, fail_if-run, or_fail-run, or_fail-some, fresh_id-run,
}
use log_monitor_tenex.World.{World, Result, ok, or_else, ◌>>=◌}
use log_monitor_tenex.World.Rules.{Reads, bind-ok, or_else-ok}
use log_monitor_tenex.Handlers.Request.{slugify}
use log_monitor_tenex.Handlers.Auth.{RegisterRequest, register, register_failure, first_session}

-- What is read of the tables: the last row is found where none before it fits.
pub find?-last {ℓ} :
    {A : Type ℓ} (p : A → Bool) (xs : List A) (y : A)
    → any p xs ≡ false
    → p y ≡ true
    → find? p (xs ++ y ∷ []) ≡ some y
find?-last p [] y h k = ground arith
find?-last p (x ∷ xs) y h k = ground (arith, find?-last p xs y)

-- Every identifier of the users and the organizations was given out before.
abbrev pub IdsBelow : ℕ → Db → Type 0
IdsBelow n d =
    (all (λ (r : UserRow). ltb r.user.id n) d.users ≡ true)
    × (all (λ (o : Organization). ltb o.id n) d.organizations ≡ true)

pub no_user_above :
    (n id : ℕ) (rows : List UserRow)
    → n < id
    → all (λ (r : UserRow). ltb r.user.id n) rows ≡ true
    → any (has_id id) rows ≡ false
no_user_above n id [] lt h = refl
no_user_above n id (r ∷ rows) lt h = ground (arith, no_user_above n id rows)

pub no_org_above :
    (n id : ℕ) (os : List Organization)
    → n < id
    → all (λ (o : Organization). ltb o.id n) os ≡ true
    → any (λ (o : Organization). o.id == id) os ≡ false
no_org_above n id [] lt h = refl
no_org_above n id (o ∷ os) lt h = ground (arith, no_org_above n id os)

-- The owner and the organization that a registration adds, at a time, with identifiers above a
-- number.
abbrev pub owner_of : RegisterRequest → Text → ℕ → ℕ → User
owner_of req hash n now = new_user (suc (suc n)) (suc n) (trim_space req.email) hash Role.owner now

abbrev pub organization_of : RegisterRequest → ℕ → ℕ → Organization
organization_of req n now =
    new_organization (suc n) (trim_space req.org_name) (slugify (trim_space req.org_name)) now

-- What a registration does to the database.
abbrev pub Registers : RegisterRequest → Text → World → Db → Type 0
Registers req hash w after =
    (any (has_email (trim_space req.email)) w.db.users ≡ false)
    × (after.users ≡ w.db.users ++ new_row (owner_of req hash w.fresh w.now) ∷ [])
    × (after.organizations ≡ w.db.organizations ++ organization_of req w.fresh w.now ∷ [])

create_org-Adds :
    (name slug email hash : Text) (w : World) {o : Organization} {u : User}
    → (create_org_with_owner name slug email hash w).0 ≡ ok (o, u)
    → (o ≡ new_organization w.fresh name slug w.now)
      × (any (has_email email) w.db.users ≡ false)
      × ((create_org_with_owner name slug email hash w).1.db.users
          ≡ w.db.users ++ new_row (new_user (suc w.fresh) w.fresh email hash Role.owner w.now) ∷ [])
      × ((create_org_with_owner name slug email hash w).1.db.organizations
          ≡ w.db.organizations ++ o ∷ [])
unfolding create_org_with_owner insert_user ◌>>=◌
create_org-Adds name slug email hash w {o} {u} h =
    let is : o ≡ new_organization w.fresh name slug w.now = ground arith in
    (is, ground arith, ground arith, rw is (ground arith))

Reads-first_session : (api : Api) (u : User) → Reads (first_session api u)
unfolding first_session
Reads-first_session api u = search handler_rules depth 20

-- The new organization and its owner are written, whatever is read after that.
create-lem :
    (name slug email hash : Text) (f : Organization × User → Handler) (w : World) {r : Response}
    → ((m : Organization × User) → Reads (f m))
    → ((or_else register_failure (create_org_with_owner name slug email hash) >>= f) w).0 ≡ ok r
    → (any (has_email email) w.db.users ≡ false)
      × (((or_else register_failure (create_org_with_owner name slug email hash) >>= f)
            w).1.db.users
          ≡ w.db.users ++ new_row (new_user (suc w.fresh) w.fresh email hash Role.owner w.now) ∷ [])
      × (((or_else register_failure (create_org_with_owner name slug email hash) >>= f)
            w).1.db.organizations
          ≡ w.db.organizations ++ new_organization w.fresh name slug w.now ∷ [])
unfolding ◌>>=◌
create-lem name slug email hash f w reads h =
    let create = create_org_with_owner name slug email hash in
    let ((o, u), went, run) = bind-ok (or_else register_failure create) f w h in
    let (is, free, users, orgs) =
      create_org-Adds name slug email hash w {o = o} {u = u}
        (or_else-ok register_failure create w went) in
    let kept =
      ap (λ (p : Result Response Response × World). p.1.db) run
      ∙ (reads (o, u)).at (or_else register_failure create w).1 in
    (
      free,
      ap (λ (d : Db). d.users) kept ∙ users,
      ap (λ (d : Db). d.organizations) kept ∙ orgs ∙ rw is refl,
    )

-- A registration that succeeds has hashed the password that it was given.
pub registered :
    (api : Api) (req : RegisterRequest) (w : World) {r : Response}
    → (register api (some req) w).0 ≡ ok r
    → (hash : Text) × (api.hash_password w.fresh req.password ≡ some hash)
      × Registers req hash w (register api (some req) w).1.db
unfolding register
registered api req w h =
    let (run_a, h_a) = or_fail-some req 400 _ _ w h in
    let (run_b, h_b) = fail_if-run _ 400 _ _ w h_a in
    let (run_c, h_c) = fail_if-run _ 400 _ _ w h_b in
    let (run_d, h_d) = fail_if-run _ 400 _ _ w h_c in
    let (run_e, h_e) = fresh_id-run _ w h_d in
    let (hash, made, run_f, h_f) = or_fail-run _ 500 _ _ _ h_e in
    let run =
      ap (λ (p : Result Response Response × World). p.1.db)
        (run_a ∙ run_b ∙ run_c ∙ run_d ∙ run_e ∙ run_f) in
    let (free, users, orgs) =
      create-lem (trim_space req.org_name) (slugify (trim_space req.org_name))
        (trim_space req.email) hash (λ (m : Organization × User). first_session api m.1)
        (record w { fresh = suc w.fresh }) (λ m. Reads-first_session api m.1) h_f in
    (
      hash,
      made,
      (free, ap (λ (d : Db). d.users) run ∙ users, ap (λ (d : Db). d.organizations) run ∙ orgs),
    )
