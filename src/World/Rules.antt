-- ===== src/World/Rules.antt =====
-- Rules on actions: which of them leave the database alone, and which leave it alone when they
-- fail. A request that is refused then has no effect, step by step through its handler.
use log_monitor_tenex.Prelude.{
  Bool, true, false, ◌≡◌, refl, ◌≢◌, sym, ◌∙◌, ap, ◌⊎◌, inl, inr, if◌then◌else◌, arith,
}
use log_monitor_tenex.Store.Tables.{Db}
use log_monitor_tenex.World.{
  World, Exec, Result, ok, err, Error, pure, raise, gets, or_else, try, fresh_id, Keys, select,
  update, command, ◌>>=◌, map_err,
}

-- It never writes to the database, and the time is that of the request.
pub record Reads {E A : Type 0} (m : Exec E A) : Type 0 where
  pub at : (w : World) → (m w).1.db ≡ w.db
  pub time : (w : World) → (m w).1.now ≡ w.now

-- Where it fails it has written nothing.
pub record Clean {E A : Type 0} (m : Exec E A) : Type 0 where
  pub at : (w : World) (e : E) → (m w).0 ≡ err e → (m w).1.db ≡ w.db

-- It does not fail.
pub record Total {E A : Type 0} (m : Exec E A) : Type 0 where
  pub at : (w : World) (e : E) → (m w).0 ≢ err e

module _ {E A : Type 0} where
  pub Reads-pure : (a : A) → Reads {E = E} (pure a)
  unfolding ◌>>=◌
  Reads-pure a = record { at = λ w. refl; time = λ w. refl }

  pub Reads-raise : (e : E) → Reads {A = A} (raise e)
  unfolding ◌>>=◌
  Reads-raise e = record { at = λ w. refl; time = λ w. refl }

  pub Reads-gets : (f : World → A) → Reads {E = E} (gets f)
  unfolding ◌>>=◌
  Reads-gets f = record { at = λ w. refl; time = λ w. refl }

  pub Reads-if : (b : Bool) (m n : Exec E A) → Reads m → Reads n → Reads (if b then m else n)
  Reads-if true m n hm hn = hm
  Reads-if false m n hm hn = hn

  pub Clean-Reads : (m : Exec E A) → Reads m → Clean m
  Clean-Reads m h = record { at = λ w e _. h.at w }

  pub Clean-if : (b : Bool) (m n : Exec E A) → Clean m → Clean n → Clean (if b then m else n)
  Clean-if true m n hm hn = hm
  Clean-if false m n hm hn = hn

  pub Total-if : (b : Bool) (m n : Exec E A) → Total m → Total n → Total (if b then m else n)
  Total-if true m n hm hn = hm
  Total-if false m n hm hn = hn

  pub Total-pure : (a : A) → Total {E = E} (pure a)
  unfolding ◌>>=◌
  Total-pure a = record { at = λ w e h. cc }

pub pure-ok : {E A : Type 0} (a : A) (w : World) {b : A} → (pure {E = E} a w).0 ≡ ok b → a ≡ b
unfolding ◌>>=◌
pure-ok a w h = cc

pub Result-cases :
    {E A : Type 0} (r : Result E A) → ((a : A) × (r ≡ ok a)) ⊎ ((e : E) × (r ≡ err e))
Result-cases (ok a) = inl (a, refl)
Result-cases (err e) = inr (e, refl)

module _ {E F A : Type 0} where
  or_else_ok : (f : E → F) {r : Result E A} {a : A} {e : F} → r ≡ ok a → map_err f r ≢ err e
  or_else_ok f {r} {a} {e} q p = cc (ap (map_err f) q)

  pub or_else-ok :
      (f : E → F) (m : Exec E A) (w : World) {a : A} → (or_else f m w).0 ≡ ok a → (m w).0 ≡ ok a
  unfolding ◌>>=◌
  or_else-ok f m w {a} h = elim (Result-cases (m w).0) [
    | inl (b, q) ↦ ground arith
    | inr (x, q) ↦ ground arith
  ]

  pub Reads-or_else : (f : E → F) (m : Exec E A) → Reads m → Reads (or_else f m)
  unfolding ◌>>=◌
  Reads-or_else f m h = record { at = h.at; time = h.time }

  pub Clean-or_else : (f : E → F) (m : Exec E A) → Clean m → Clean (or_else f m)
  unfolding ◌>>=◌
  Clean-or_else f m h = record {
    at = λ w e p. elim (Result-cases (m w).0) [
      | inl (a, q) ↦ absurd (or_else_ok f q p)
      | inr (x, q) ↦ h.at w x q
    ];
  }

  pub Reads-try : (m : Exec E A) → Reads m → Reads {E = F} (try m)
  unfolding ◌>>=◌
  Reads-try m h = record { at = h.at; time = h.time }

  pub Total-try : (m : Exec E A) → Total {E = F} (try m)
  unfolding ◌>>=◌
  Total-try m = record { at = λ w e h. cc }

module _ {E A B : Type 0} where
  pub Reads-bind :
      (m : Exec E A) (f : A → Exec E B) → Reads m → ((a : A) → Reads (f a)) → Reads (m >>= f)
  unfolding ◌>>=◌
  Reads-bind m f hm hf = record {
    at = λ w. elim (Result-cases (m w).0) [
      | inl (a, q) ↦ rw q ((hf a).at (m w).1 ∙ hm.at w)
      | inr (e, q) ↦ rw q (hm.at w)
    ];
    time = λ w. elim (Result-cases (m w).0) [
      | inl (a, q) ↦ rw q ((hf a).time (m w).1 ∙ hm.time w)
      | inr (e, q) ↦ rw q (hm.time w)
    ];
  }

  pub Clean-bind :
      (m : Exec E A) (f : A → Exec E B) → Reads m → ((a : A) → Clean (f a)) → Clean (m >>= f)
  unfolding ◌>>=◌
  Clean-bind m f hm hf = record {
    at = λ w e p. elim (Result-cases (m w).0) [
      | inl (a, q) ↦ rw q ((hf a).at (m w).1 e (rw q at p) ∙ hm.at w)
      | inr (x, q) ↦ rw q (hm.at w)
    ];
  }

  pub Clean-bind_last :
      (m : Exec E A) (f : A → Exec E B) → Clean m → ((a : A) → Total (f a)) → Clean (m >>= f)
  unfolding ◌>>=◌
  Clean-bind_last m f hm hf = record {
    at = λ w e p. elim (Result-cases (m w).0) [
      | inl (a, q) ↦ absurd ((hf a).at (m w).1 e (rw q at p))
      | inr (x, q) ↦ rw q (hm.at w x q)
    ];
  }

  -- A chain that succeeds: its first step did, and the rest from there.
  pub bind-ok :
      (m : Exec E A) (f : A → Exec E B) (w : World) {b : B}
      → ((m >>= f) w).0 ≡ ok b
      → (a : A) × ((m w).0 ≡ ok a) × ((m >>= f) w ≡ f a (m w).1)
  unfolding ◌>>=◌
  bind-ok m f w p = elim (Result-cases (m w).0) [
    | inl (a, q) ↦ (a, q, rw q)
    | inr (x, q) ↦ cc (rw q at p)
  ]

  -- A chain whose first step succeeds goes on with the rest.
  pub bind-run :
      (m : Exec E A) (f : A → Exec E B) (w : World) {a : A}
      → (m w).0 ≡ ok a
      → (m >>= f) w ≡ f a (m w).1
  unfolding ◌>>=◌
  bind-run m f w p = rw p refl

  pub bind-fail :
      (m : Exec E A) (f : A → Exec E B) (w : World) {e : E}
      → (m w).0 ≡ err e
      → (m >>= f) w ≡ (err e, (m w).1)
  unfolding ◌>>=◌
  bind-fail m f w p = rw p refl

  pub Total-bind :
      (m : Exec E A) (f : A → Exec E B) → Total m → ((a : A) → Total (f a)) → Total (m >>= f)
  unfolding ◌>>=◌
  Total-bind m f hm hf = record {
    at = λ w e p. elim (Result-cases (m w).0) [
      | inl (a, q) ↦ (hf a).at (m w).1 e (rw q at p)
      | inr (x, q) ↦ hm.at w x q
    ];
  }

-- What holds of the result of an action that succeeds, and of the world that it leaves.
abbrev pub Ensures : {E A : Type 0} → Exec E A → World → (A → World → Type 0) → Type 0
Ensures {A = A} m w P = (a : A) (v : World) → m w ≡ (ok a, v) → P a v

module _ {E A B : Type 0} (P : B → World → Type 0) where
  pub Ensures-bind :
      (m : Exec E A) (f : A → Exec E B) (w : World)
      → ((a : A) (v : World) → m w ≡ (ok a, v) → Ensures (f a) v P)
      → Ensures (m >>= f) w P
  Ensures-bind m f w h b v e =
      let (a, went, q) = bind-ok m f w (ap (λ (r : Result E B × World). r.0) e) in
      h a (m w).1 (ap (λ (r : Result E A). (r, (m w).1)) went) b v (sym q ∙ e)

pub Ensures-or_else :
    {E F A : Type 0} (P : A → World → Type 0) (f : E → F) (m : Exec E A) (w : World)
    → Ensures m w P
    → Ensures (or_else f m) w P
unfolding ◌>>=◌
Ensures-or_else {E} {F} {A} P f m w h a v e =
    let went = or_else-ok f m w (ap (λ (r : Result F A × World). r.0) e) in
    let left = ap (λ (r : Result F A × World). r.1) e in h a v (λ i. (went i, left i))

module _ {A : Type 0} where
  pub Reads-select : (f : World → Result Error A) → Reads (select f)
  unfolding select ◌>>=◌
  Reads-select f = record { at = λ w. ground arith; time = λ w. ground arith }

  pub Clean-update : (f : World → Result Error (A × Db)) → Clean (update f)
  unfolding update ◌>>=◌
  Clean-update f = record { at = λ w e h. ground arith }

  pub Reads-command : (f : World → A × Keys) → Reads (command f)
  unfolding command
  Reads-command f = record { at = λ w. ground arith; time = λ w. ground arith }

pub Reads-fresh_id : {E : Type 0} → Reads {E = E} fresh_id
unfolding ◌>>=◌
Reads-fresh_id = record { at = λ w. refl; time = λ w. refl }

pub ruleset action_rules = (
  Reads-pure, Reads-raise, Reads-gets, Reads-or_else, Reads-try, Reads-bind, Reads-if,
  Reads-fresh_id, Reads-command, Total-if, Clean-or_else, Clean-bind, Clean-bind_last, Clean-if,
  Total-pure, Total-try, Total-bind,
)
