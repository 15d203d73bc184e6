-- ===== src/World/Keeps.antt =====
-- Rules on actions that write to the database, but leave a part of it alone.
use log_monitor_tenex.Prelude.{◌≡◌, ◌∙◌, Bool, true, false, if◌then◌else◌, inl, inr, arith, ap}
use log_monitor_tenex.Store.Tables.{Db}
use log_monitor_tenex.World.{World, Exec, Result, ok, Error, or_else, try, update, ◌>>=◌}
use log_monitor_tenex.World.Rules.{Reads, Result-cases}

module _ {X : Type 0} (part : Db → X) where
  pub record Keeps {E A : Type 0} (m : Exec E A) : Type 0 where
    pub at : (w : World) → part (m w).1.db ≡ part w.db

  pub Keeps-Reads : {E A : Type 0} (m : Exec E A) → Reads m → Keeps m
  Keeps-Reads m h = record { at = λ w. ap part (h.at w) }

  module _ {E F A : Type 0} where
    pub Keeps-or_else : (f : E → F) (m : Exec E A) → Keeps m → Keeps (or_else f m)
    unfolding ◌>>=◌
    Keeps-or_else f m h = record { at = h.at }

    pub Keeps-try : (m : Exec E A) → Keeps m → Keeps {E = F} (try m)
    unfolding ◌>>=◌
    Keeps-try m h = record { at = h.at }

  pub Keeps-if :
      {E A : Type 0} (b : Bool) (m n : Exec E A) → Keeps m → Keeps n → Keeps (if b then m else n)
  Keeps-if true m n hm hn = hm
  Keeps-if false m n hm hn = hn

  pub Keeps-bind :
      {E A B : Type 0} (m : Exec E A) (f : A → Exec E B)
      → Keeps m
      → ((a : A) → Keeps (f a))
      → Keeps (m >>= f)
  unfolding ◌>>=◌
  Keeps-bind m f hm hf = record {
    at = λ w. elim (Result-cases (m w).0) [
      | inl (a, q) ↦ rw q ((hf a).at (m w).1 ∙ hm.at w)
      | inr (e, q) ↦ rw q (hm.at w)
    ];
  }

  -- A statement keeps what each of its successes keeps.
  pub Keeps-update :
      {A : Type 0} (f : World → Result Error (A × Db))
      → ((w : World) (a : A) (d : Db) → f w ≡ ok (a, d) → part d ≡ part w.db)
      → Keeps (update f)
  unfolding update ◌>>=◌
  Keeps-update f h = record {
    at = λ w. elim (Result-cases (f w)) [
      | inl ((a, d), q) ↦ ground (arith, q, h w a d q)
      | inr (e, q) ↦ ground (arith, q)
    ];
  }
