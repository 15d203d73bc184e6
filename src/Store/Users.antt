-- ===== src/Store/Users.antt =====
-- backend/gateway/internal/store/users.go: organizations and users.
use log_monitor_tenex.Prelude.{
  ℕ, Text, text_eq, to_lower, Bool, false, Option, none, some, List, [], ◌∷◌, ◌++◌, map, ◌==◌,
  if◌then◌else◌, find?, keep_if, any,
}
use log_monitor_tenex.Store.Tables.{Role, Organization, User, UserRow, Db}
use log_monitor_tenex.World.{
  World, Exec, Result, ok, err, Error, email_taken, slug_taken, select, update, fresh_id,
  or_not_found, ◌>>=◌,
}

-- Equality of the column type `citext`.
unfoldable pub citext_eq : Text → Text → Bool
unfolding to_lower
citext_eq s t = text_eq (map to_lower s) (map to_lower t)

unfoldable pub user_of : Option UserRow → Option User
user_of none = none
user_of (some r) = some r.user

abbrev pub has_id : ℕ → UserRow → Bool
has_id id r = r.user.id == id

abbrev pub has_email : Text → UserRow → Bool
has_email email r = citext_eq r.user.email email

-- `UserByID`
unfoldable pub user_by_id : ℕ → Exec Error User
unfolding user_of
user_by_id id = select λ w. or_not_found (user_of (find? (has_id id) w.db.users))

-- `UserByEmail`
unfoldable pub user_by_email : Text → Exec Error User
unfolding user_of citext_eq
user_by_email email = select λ w. or_not_found (user_of (find? (has_email email) w.db.users))

abbrev pub new_user : ℕ → ℕ → Text → Text → Role → ℕ → User
new_user id org email hash role now = record {
  id = id;
  org_id = org;
  email = email;
  password_hash = hash;
  role = role;
  created_at = now;
}

abbrev pub new_row : User → UserRow
new_row u = record { user = u; totp_enabled = false; totp_secret = none }

abbrev pub new_organization : ℕ → Text → Text → ℕ → Organization
new_organization id name slug now = record {
  id = id;
  name = name;
  slug = slug;
  created_at = now;
  require_mfa = false;
}

abbrev with_organization : Organization → Db → Db
with_organization o d = record d { organizations = d.organizations ++ o ∷ [] }

abbrev with_user : User → Db → Db
with_user u d = record d { users = d.users ++ new_row u ∷ [] }

-- The INSERT into `users`: the unique e-mail is a constraint, and `mapConstraint` names it.
unfoldable pub insert_user : User → Db → Result Error (User × Db)
unfolding citext_eq
insert_user u d = if any (has_email u.email) d.users then err email_taken else ok (u, with_user u d)

abbrev org_with_owner : Organization → User → World → Result Error ((Organization × User) × Db)
org_with_owner o u w =
    if any (λ p. citext_eq p.slug o.slug) w.db.organizations
    then err slug_taken
    else elim (insert_user u (with_organization o w.db)) [
      | ok (u', d) ↦ ok ((o, u'), d)
      | err e ↦ err e
    ]

-- `CreateOrgWithOwner`: one transaction.
unfoldable pub create_org_with_owner : Text → Text → Text → Text → Exec Error (Organization × User)
unfolding insert_user
create_org_with_owner name slug email hash = do
  oid ← fresh_id
  uid ← fresh_id
  update λ w.
      org_with_owner (new_organization oid name slug w.now)
        (new_user uid oid email hash Role.owner w.now) w

-- `CreateMember`
unfoldable pub create_member : ℕ → Text → Text → Role → Exec Error User
unfolding insert_user
create_member org email hash role = do
  uid ← fresh_id
  update (λ w. insert_user (new_user uid org email hash role w.now) w.db)

-- `ListOrgUsers`, oldest first.
unfoldable pub list_org_users : ℕ → Exec Error (List User)
list_org_users org = select λ w. ok (keep_if (λ u. u.org_id == org) (map (λ r. r.user) w.db.users))

-- `OrgByID`
unfoldable pub org_by_id : ℕ → Exec Error Organization
org_by_id id = select λ w. or_not_found (find? (λ o. o.id == id) w.db.organizations)
