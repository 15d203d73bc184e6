-- ===== src/Http/Rules.antt =====
-- The rules of `World.Rules` for the steps of a handler, and what they give for its answer.
use log_monitor_tenex.Prelude.{
  ℕ, suc, String, Bool, true, false, Option, none, some, ◌≡◌, refl, arith,
}
use log_monitor_tenex.World.{World, Exec, ok, Error, fresh_id, ◌>>=◌}
use log_monitor_tenex.World.Rules.{Reads, Clean, Reads-or_else, Clean-or_else, action_rules}
use log_monitor_tenex.Http.{Response, fail_if, or_fail, or_fail_with, serve}

pub Reads-fail_if : (b : Bool) (status : ℕ) (m : String) → Reads (fail_if b status m)
unfolding serve
Reads-fail_if true status m = record { at = λ w. refl; time = λ w. refl }
Reads-fail_if false status m = record { at = λ w. refl; time = λ w. refl }

module _ {A : Type 0} where
  pub Reads-or_fail : (o : Option A) (status : ℕ) (m : String) → Reads (or_fail o status m)
  unfolding serve
  Reads-or_fail none status m = record { at = λ w. refl; time = λ w. refl }
  Reads-or_fail (some a) status m = record { at = λ w. refl; time = λ w. refl }

  pub Reads-or_fail_with :
      (m : Exec Error A) (status : ℕ) (t : String) → Reads m → Reads (or_fail_with m status t)
  unfolding or_fail_with
  Reads-or_fail_with m status t h = Reads-or_else _ m h

  pub Clean-or_fail_with :
      (m : Exec Error A) (status : ℕ) (t : String) → Clean m → Clean (or_fail_with m status t)
  unfolding or_fail_with
  Clean-or_fail_with m status t h = Clean-or_else _ m h

-- A chain that succeeds passed its first test, and goes on from there.
module _ {A : Type 0} where
  pub fail_if-ok :
      (b : Bool) (status : ℕ) (m : String) (f : Unit {0} → Exec Response A) (w : World) {a : A}
      → ((fail_if b status m >>= f) w).0 ≡ ok a
      → (b ≡ false) × ((f tt w).0 ≡ ok a)
  unfolding serve
  fail_if-ok true status m f w h = absurd (ground arith)
  fail_if-ok false status m f w h = (refl, h)

module _ {A B : Type 0} where
  pub or_fail-ok :
      (o : Option A) (status : ℕ) (m : String) (f : A → Exec Response B) (w : World) {b : B}
      → ((or_fail o status m >>= f) w).0 ≡ ok b
      → (a : A) × (o ≡ some a) × ((f a w).0 ≡ ok b)
  unfolding serve
  or_fail-ok none status m f w h = absurd (ground arith)
  or_fail-ok (some a) status m f w h = (a, refl, h)

pub ruleset handler_rules =
    (action_rules, Reads-fail_if, Reads-or_fail, Reads-or_fail_with, Clean-or_fail_with)

-- The same, with the world: the run is that of the rest.
module _ {A : Type 0} where
  pub fail_if-run :
      (b : Bool) (status : ℕ) (m : String) (f : Unit {0} → Exec Response A) (w : World) {a : A}
      → ((fail_if b status m >>= f) w).0 ≡ ok a
      → ((fail_if b status m >>= f) w ≡ f tt w) × ((f tt w).0 ≡ ok a)
  unfolding serve
  fail_if-run true status m f w h = absurd (ground arith)
  fail_if-run false status m f w h = (refl, h)

module _ {A B : Type 0} where
  pub or_fail-run :
      (o : Option A) (status : ℕ) (m : String) (f : A → Exec Response B) (w : World) {b : B}
      → ((or_fail o status m >>= f) w).0 ≡ ok b
      → (a : A) × (o ≡ some a) × ((or_fail o status m >>= f) w ≡ f a w) × ((f a w).0 ≡ ok b)
  unfolding serve
  or_fail-run none status m f w h = absurd (ground arith)
  or_fail-run (some a) status m f w h = (a, refl, refl, h)

  pub or_fail-some :
      (a : A) (status : ℕ) (m : String) (f : A → Exec Response B) (w : World) {b : B}
      → ((or_fail (some a) status m >>= f) w).0 ≡ ok b
      → ((or_fail (some a) status m >>= f) w ≡ f a w) × ((f a w).0 ≡ ok b)
  unfolding serve
  or_fail-some a status m f w h = (refl, h)

module _ {B : Type 0} where
  pub fresh_id-run :
      (f : ℕ → Exec Response B) (w : World) {b : B}
      → ((fresh_id >>= f) w).0 ≡ ok b
      → ((fresh_id >>= f) w ≡ f w.fresh (record w { fresh = suc w.fresh }))
        × ((f w.fresh (record w { fresh = suc w.fresh })).0 ≡ ok b)
  unfolding serve
  fresh_id-run f w h = (refl, h)
