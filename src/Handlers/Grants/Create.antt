-- ===== src/Handlers/Grants/Create.antt =====
-- grants.go, `createGrant`: what a grant that is made says, and what it took to make it.
use log_monitor_tenex.Prelude.{
  ℕ, ◌≤◌, Text, true, Option, none, some, ◌≡◌, ◌≢◌, ◌⊎◌, inl, inr, Option-cases, arith, find?,
}
use log_monitor_tenex.Store.Tables.{User, Upload, Db, is_admin}
use log_monitor_tenex.Store.Grants.{GrantInput}
use log_monitor_tenex.Store.Users.{user_by_id, user_of, has_id}
use log_monitor_tenex.Store.Uploads.{upload_by_id, is_upload}
use log_monitor_tenex.Authz.Levels.{Level, parse_level, level_string}
use log_monitor_tenex.Api.{Api}
use log_monitor_tenex.Http.{serve}
use log_monitor_tenex.World.{World, ok, called}
use log_monitor_tenex.World.Rules.{Result-cases}
use log_monitor_tenex.Handlers.Grants.Safety.{Reads-shareable}
use log_monitor_tenex.Handlers.Grants.{GrantRequest, checked_grant, shareable}

-- Whom a request names.
abbrev pub IsSubject : Api → Db → Text → User → Type 0
IsSubject api db text u =
    (id : ℕ) × (api.parse_uuid text ≡ some id) × (user_of (find? (has_id id) db.users) ≡ some u)

-- What the target of a grant must be: the organization, for an administrator; or an upload of the
-- organization that is the caller's, or the caller an administrator, and not the subject's.
abbrev pub IsShareable : Api → Db → User → User → Option Text → Option ℕ → Type 0
IsShareable api db caller subject none target = (is_admin caller.role ≡ true) × (target ≡ none)
IsShareable api db caller subject (some text) target =
    (id : ℕ) × (up : Upload) × (api.parse_uuid text ≡ some id)
    × (find? (is_upload id) db.uploads ≡ some up)
    × (up.org_id ≡ caller.org_id)
    × ((up.user_id ≡ caller.id) ⊎ (is_admin caller.role ≡ true))
    × (up.user_id ≢ subject.id)
    × (target ≡ some id)

pub shareable_sound :
    (api : Api) (caller subject : User) (upload : Option Text) (w : World) {target : Option ℕ}
    → (shareable api caller subject upload w).0 ≡ ok target
    → IsShareable api w.db caller subject upload target
unfolding shareable upload_by_id serve
shareable_sound api caller subject none w h = ground arith
shareable_sound api caller subject (some text) w {target} h =
    elim (Option-cases (api.parse_uuid text)) [
      | inl bad ↦ absurd (ground arith)
      | inr (id, e) ↦ elim (Option-cases (find? (is_upload id) w.db.uploads)) [
        | inl missing ↦ absurd (ground arith)
        | inr (up, f) ↦ (id, up, e, f, ground arith, ground arith, ground arith, ground arith)
      ]
    ]

module _ (api : Api) (caller : User) (req : GrantRequest) (w : World) where
  -- What has been checked before a grant of `input` to `subject` is written.
  pub record IsChecked (subject : User) (input : GrantInput) : Type 0 where
    pub named : IsSubject api w.db req.subject_user_id subject
    pub colleague : subject.org_id ≡ caller.org_id
    pub other : subject.id ≢ caller.id
    pub target : IsShareable api w.db caller subject req.upload_id input.upload_id
    pub not_past : (t : ℕ) → req.expires_at ≡ some t → w.now ≤ t
    pub level : (l : Level) × (parse_level req.level ≡ some l) × (input.level ≡ level_string l)
    pub org : input.org_id ≡ caller.org_id
    pub grantee : input.subject_user_id ≡ subject.id
    pub granter : input.granted_by ≡ caller.id
    pub expiry : input.expires_at ≡ req.expires_at

  module _ (l : Level) (id : ℕ) (u : User) (t : Option ℕ) where
    shared :
        parse_level req.level ≡ some l
        → api.parse_uuid req.subject_user_id ≡ some id
        → user_of (find? (has_id id) w.db.users) ≡ some u
        → (shareable api caller u req.upload_id (called w)).0 ≡ ok t
        → {subject : User} {input : GrantInput}
        → (checked_grant api caller (some req) w).0 ≡ ok (subject, input)
        → IsChecked subject input
    unfolding checked_grant serve user_by_id
    shared el ei eu es {subject} {input} h =
        let time = (Reads-shareable api caller u req.upload_id).time (called w) in
        let sound = shareable_sound api caller u req.upload_id (called w) es in
        let same : subject ≡ u = ground arith in
        let place : input.upload_id ≡ t = ground arith in
        record {
          named = (id, ei, rw same eu);
          colleague = ground arith;
          other = ground arith;
          target = rw (same, place) sound;
          not_past = λ x e. ground arith;
          level = (l, el, ground arith);
          org = ground arith;
          grantee = ground arith;
          granter = ground arith;
          expiry = ground arith;
        }

  pub checked_grant_sound :
      {subject : User} {input : GrantInput}
      → (checked_grant api caller (some req) w).0 ≡ ok (subject, input)
      → IsChecked subject input
  unfolding checked_grant serve user_by_id
  checked_grant_sound {subject} {input} h = elim (Option-cases (parse_level req.level)) [
    | inl bad ↦ absurd (ground arith)
    | inr (l, el) ↦ elim (Option-cases (api.parse_uuid req.subject_user_id)) [
      | inl bad ↦ absurd (ground arith)
      | inr (id, ei) ↦ elim (Option-cases (user_of (find? (has_id id) w.db.users))) [
        | inl missing ↦ absurd (ground arith)
        | inr (u, eu) ↦ elim (Result-cases (shareable api caller u req.upload_id (called w)).0) [
          | inr (bad, es) ↦ absurd (ground arith)
          | inl (t, es) ↦ shared l id u t el ei eu es h
        ]
      ]
    ]
  ]
