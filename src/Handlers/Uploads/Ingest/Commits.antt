-- ===== src/Handlers/Uploads/Ingest/Commits.antt =====
-- An upload is stored whole or not at all.
use mathlib.Core.Path.{subst}
use log_monitor_tenex.Prelude.{ℕ, Text, ◌≡◌, refl, sym, ap, ◌∙◌, arith}
use log_monitor_tenex.Parser.{Stream, Stats}
use log_monitor_tenex.Store.Tables.{Db, Upload, Grain}
use log_monitor_tenex.Store.Ingest.{
  IngestBatch, with_upload, with_grain, with_status, statement, create_upload, build_rollups,
  build_grain, build_status_rollups, commit,
}
use log_monitor_tenex.World.{World, ok, update, gets, pure, or_else, ◌>>=◌}
use log_monitor_tenex.World.Rules.{
  Reads, Clean, action_rules, Clean-update, Ensures, Ensures-bind, Ensures-or_else,
}
use log_monitor_tenex.Handlers.Uploads.Ingest.{
  Ingesting, IngestError, IngestResult, store_failed, new_upload, put_object, guard_lines, conclude,
}

module _ {A : Type 0} (f : Db → A × Db) (tx : Db) where
  Reads-statement : Reads (statement f tx)
  unfolding statement
  Reads-statement = record { at = λ w. ground arith; time = λ w. ground arith }

  statement-ok : (w : World) {r : A × Db} → (statement f tx w).0 ≡ ok r → r ≡ f tx
  unfolding statement
  statement-ok w h = ground arith

pub Reads-put_object : (key : Text) → Reads (put_object key)
unfolding put_object
Reads-put_object key = record { at = λ w. ground arith; time = λ w. ground arith }

Reads-create_upload : (u : Upload) (tx : Db) → Reads (create_upload u tx)
unfolding create_upload
Reads-create_upload u tx = Reads-statement (λ d. (tt, with_upload u d)) tx

Reads-build_rollups : (b : IngestBatch) (tx : Db) → Reads (build_rollups b tx)
unfolding build_rollups build_grain build_status_rollups
Reads-build_rollups b tx = search (action_rules, Reads-statement) depth 12

Reads-guard_lines : (n : ℕ) → Reads (guard_lines n)
Reads-guard_lines n = search (action_rules) depth 12

Clean-commit : (tx : Db) → Clean (commit tx)
unfolding commit
Clean-commit tx = Clean-update (λ w. ok (tt, tx))

module _ (b : IngestBatch) (filename key : Text) (stream : Stream) (stats : Stats)
    (s : Ingesting) where
  pub Clean-conclude : Clean (conclude b filename key stream stats s)
  unfolding conclude
  Clean-conclude =
      search
        (
          action_rules, Reads-put_object, Reads-guard_lines, Reads-create_upload,
          Reads-build_rollups, Clean-commit,
        )
        depth 20

create_upload-ok :
    (u : Upload) (tx : Db) (w : World)
    → Ensures (create_upload u tx) w (λ (r : Unit {0} × Db) _. r.1 ≡ with_upload u tx)
unfolding create_upload
create_upload-ok u tx w r v e =
    ap (λ (r : Unit {0} × Db). r.1) (statement-ok (λ d. (tt, with_upload u d)) tx w (cc e))

commit-ok : (tx : Db) (w : World) → Ensures (commit tx) w (λ (_ : Unit {0}) v. v.db ≡ tx)
unfolding commit update
commit-ok tx w r v e = ground (arith, e)

abbrev pub rolled_up : IngestBatch → Db → Db
rolled_up b d =
    with_status b.upload_id
      (with_grain b.upload_id Grain.hour (with_grain b.upload_id Grain.minute d))

build_grain-ok :
    (b : IngestBatch) (g : Grain) (tx : Db) (w : World)
    → Ensures (build_grain b g tx) w (λ (r : Unit {0} × Db) _. r.1 ≡ with_grain b.upload_id g tx)
unfolding build_grain
build_grain-ok b g tx w r v e =
    ap (λ (r : Unit {0} × Db). r.1)
      (statement-ok (λ d. (tt, with_grain b.upload_id g d)) tx w (cc e))

build_status_rollups-ok :
    (b : IngestBatch) (tx : Db) (w : World)
    → Ensures
        (build_status_rollups b tx)
        w
        (λ (r : Unit {0} × Db) _. r.1 ≡ with_status b.upload_id tx)
unfolding build_status_rollups
build_status_rollups-ok b tx w r v e =
    ap (λ (r : Unit {0} × Db). r.1)
      (statement-ok (λ d. (tt, with_status b.upload_id d)) tx w (cc e))

build_rollups-ok :
    (b : IngestBatch) (tx : Db) (w : World)
    → Ensures (build_rollups b tx) w (λ (r : Unit {0} × Db) _. r.1 ≡ rolled_up b tx)
unfolding build_rollups
build_rollups-ok b tx w =
    let P : Unit {0} × Db → World → Type 0 = λ r _. r.1 ≡ rolled_up b tx in
    Ensures-bind P (build_grain b Grain.minute tx) _ w (λ m v hm.
      Ensures-bind P (build_grain b Grain.hour m.1) _ v (λ n v' hn r v'' h.
        build_status_rollups-ok b n.1 v' r v'' h
        ∙ ap (with_status b.upload_id) (
            build_grain-ok b Grain.hour m.1 v n v' hn
            ∙ ap (with_grain b.upload_id Grain.hour) (build_grain-ok b Grain.minute tx w m v hm))))

module _ (b : IngestBatch) (filename key : Text) (stream : Stream) (stats : Stats)
    (s : Ingesting) where
  -- What a committed upload leaves.
  abbrev pub Concluded : IngestResult → World → Type 0
  Concluded r w =
      (r.entries ≡ s.copied)
      × (r.upload ≡ new_upload b filename key stream stats r.upload.created_at)
      × (w.db ≡ rolled_up b (with_upload r.upload s.tx))

  finish :
      (up : Upload) (t : ℕ) (made built : Db) (w : World)
      → new_upload b filename key stream stats t ≡ up
      → made ≡ with_upload up s.tx
      → built ≡ rolled_up b made
      → w.db ≡ built
      → Ensures (pure {E = IngestError} record { upload = up; entries = s.copied }) w Concluded
  unfolding ◌>>=◌
  finish up t made built w eu em eb ew r v e =
      let same : r ≡ record { upload = up; entries = s.copied } = cc e in
      let left : v ≡ w = cc e in
      subst (λ (q : IngestResult). Concluded q v) (sym same)
        (
          refl,
          sym eu
              ∙ ap (new_upload b filename key stream stats) (ap (λ (u : Upload). u.created_at) eu),
          ap (λ (q : World). q.db) left ∙ ew ∙ eb ∙ ap (rolled_up b) em,
        )

  pub conclude-ok : (w : World) → Ensures (conclude b filename key stream stats s) w Concluded
  unfolding conclude ◌>>=◌
  conclude-ok w = Ensures-bind Concluded (or_else store_failed (put_object key)) _ w (λ _ v1 _.
      Ensures-bind Concluded (guard_lines stats.line_count) _ v1 (λ _ v2 _.
        Ensures-bind Concluded (gets (λ v. new_upload b filename key stream stats v.now)) _ v2
          (λ up v3 hu.
            Ensures-bind Concluded (or_else store_failed (create_upload up s.tx)) _ v3
              (λ made v4 hm.
                Ensures-bind Concluded (or_else store_failed (build_rollups b made.1)) _ v4
                  (λ built v5 hb.
                    Ensures-bind Concluded (or_else store_failed (commit built.1)) _ v5
                      (λ _ v6 hc r v7 h.
                        finish up v2.now made.1 built.1 v6 (cc hu)
                          (Ensures-or_else (λ (q : Unit {0} × Db) _. q.1 ≡ with_upload up s.tx)
                            store_failed (create_upload up s.tx) v3 (create_upload-ok up s.tx v3)
                            made v4 hm)
                          (Ensures-or_else (λ (q : Unit {0} × Db) _. q.1 ≡ rolled_up b made.1)
                            store_failed (build_rollups b made.1) v4 (build_rollups-ok b made.1 v4)
                            built v5 hb)
                          (Ensures-or_else (λ (_ : Unit {0}) (v : World). v.db ≡ built.1)
                            store_failed (commit built.1) v5 (commit-ok built.1 v5) _ v6 hc)
                          r v7 h))))))
