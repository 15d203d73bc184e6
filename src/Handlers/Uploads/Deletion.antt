-- ===== src/Handlers/Uploads/Deletion.antt =====
-- uploads.go, `deleteUpload`: who may delete an upload, and what is then gone.
use log_monitor_tenex.Prelude.{
  ℕ, Text, true, not, some, ◌≡◌, sym, ◌⊎◌, ◌&&◌, ◌==◌, inl, inr, arith, find?, keep_if,
  Option-cases, id_eq?,
}
use log_monitor_tenex.Store.Tables.{User, Upload, Db, is_admin}
use log_monitor_tenex.Store.Uploads.{upload_by_id, delete_upload, is_upload}
use log_monitor_tenex.Store.Grants.{audit}
use log_monitor_tenex.Api.{Api}
use log_monitor_tenex.Http.{Response, serve}
use log_monitor_tenex.World.{World, ok, ◌>>=◌}
use log_monitor_tenex.World.Rules.{Result-cases, Reads, bind-ok}
use log_monitor_tenex.Http.Rules.{handler_rules}
use log_monitor_tenex.Store.Rules.{store_rules}
use log_monitor_tenex.Handlers.Uploads.{
  delete_upload_handler, deletable, delete_archive, delete_object,
}

ruleset rules = (handler_rules, store_rules)

Reads-deletable :
    (api : Api) (caller : User) (path_id : Text) → Reads (deletable api caller path_id)
unfolding deletable
Reads-deletable api caller path_id = search rules depth 30

-- The tables that a deletion changes: each keeps the rows that are not the upload's.
abbrev pub IsPurged : ℕ → ℕ → Db → Db → Type 0
IsPurged org id before after =
    (after.uploads ≡ keep_if (λ u. not (u.id == id && u.org_id == org)) before.uploads)
    × (after.log_entries
        ≡ keep_if (λ e. not (e.upload_id == id && e.org_id == org)) before.log_entries)
    × (after.access_grants ≡ keep_if (λ g. not (id_eq? g.upload_id (some id))) before.access_grants)
    × (after.analyses ≡ keep_if (λ a. not (a.upload_id == id)) before.analyses)

-- What is true of the upload that a caller may delete.
abbrev pub IsDeletable : Api → Db → User → Text → ℕ → Upload → Type 0
IsDeletable api db caller path_id id up =
    (api.parse_uuid path_id ≡ some id)
    × (find? (is_upload id) db.uploads ≡ some up)
    × (up.org_id ≡ caller.org_id)
    × ((up.user_id ≡ caller.id) ⊎ (is_admin caller.role ≡ true))

deletable_sound :
    (api : Api) (caller : User) (path_id : Text) (w : World) {id : ℕ} {up : Upload}
    → (deletable api caller path_id w).0 ≡ ok (id, up)
    → IsDeletable api w.db caller path_id id up
unfolding deletable serve upload_by_id
deletable_sound api caller path_id w {id} {up} h = elim (Option-cases (api.parse_uuid path_id)) [
  | inl bad ↦ absurd (ground arith)
  | inr (i, e) ↦ elim (Option-cases (find? (is_upload i) w.db.uploads)) [
    | inl missing ↦ absurd (ground arith)
    | inr (u, f) ↦ (ground arith, ground arith, ground arith, ground arith)
  ]
]

delete_archive-db : (api : Api) (key : Text) (w : World) → (delete_archive api key w).1.db ≡ w.db
unfolding delete_archive delete_object serve
delete_archive-db api key w = ground arith

delete_upload-IsPurged :
    (org id : ℕ) (w : World) {n : ℕ}
    → (delete_upload org id w).0 ≡ ok n
    → IsPurged org id w.db (delete_upload org id w).1.db
unfolding delete_upload ◌>>=◌
delete_upload-IsPurged org id w h = (ground arith, ground arith, ground arith, ground arith)

write-IsPurged :
    (api : Api) (caller : User) (path_id : Text) (w : World) {id : ℕ} {up : Upload} {r : Response}
    → (deletable api caller path_id w).0 ≡ ok (id, up)
    → (delete_upload_handler api caller path_id w).0 ≡ ok r
    → (r.status ≡ 204)
      × IsPurged caller.org_id id
          (deletable api caller path_id w).1.db
          (delete_upload_handler api caller path_id w).1.db
unfolding delete_upload_handler serve audit
write-IsPurged api caller path_id w {id} {up} checked h =
    let w1 = (deletable api caller path_id w).1 in
    elim (Result-cases (delete_upload caller.org_id id w1).0) [
      | inr (bad, e) ↦ absurd (ground arith)
      | inl (n, e) ↦
          let gone = delete_upload-IsPurged caller.org_id id w1 e in
          let kept = delete_archive-db api up.object_key (delete_upload caller.org_id id w1).1 in
          (ground arith, (ground arith, ground arith, ground arith, ground arith))
    ]

IsPurged-moved :
    (org id : ℕ) (d d' after : Db) → d ≡ d' → IsPurged org id d after → IsPurged org id d' after
IsPurged-moved org id d d' after same gone = rw (sym same) gone

-- A deletion that succeeds was asked for by the owner of the upload or by an administrator, in
-- their own organization, and is answered with 204. The tables of uploads, log entries, grants and
-- analyses keep exactly the rows that are not the upload's.
pub delete_upload_sound :
    (api : Api) (caller : User) (path_id : Text) (w : World) {r : Response}
    → (delete_upload_handler api caller path_id w).0 ≡ ok r
    → (r.status ≡ 204)
      × (id : ℕ) × (up : Upload) × IsDeletable api w.db caller path_id id up
      × IsPurged caller.org_id id w.db (delete_upload_handler api caller path_id w).1.db
unfolding delete_upload_handler
delete_upload_sound api caller path_id w {r} h =
    let ((id, up), e, _) = bind-ok (deletable api caller path_id) _ w h in
    let (status, gone) = write-IsPurged api caller path_id w e h in
    (
      status,
      id,
      up,
      deletable_sound api caller path_id w e,
      IsPurged-moved caller.org_id id (deletable api caller path_id w).1.db w.db
          (delete_upload_handler api caller path_id w).1.db
          ((Reads-deletable api caller path_id).at w) gone,
    )
