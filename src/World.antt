-- ===== src/World.antt =====
-- What the gateway reads and changes outside its own process, and the actions on it.
--
-- A request is an action `Exec E A`: it takes the world, and returns the new world beside a result
-- or an error. Every round trip to Postgres, Redis or the bucket may fail: `faults` says, call by
-- call, which do, so a theorem over all worlds is one over all patterns of failure.
pub mod Keeps
pub mod Rules
use log_monitor_tenex.Prelude.{
  ℕ, suc, ltb, text_eq, Text, Bool, true, false, Option, none, some, List, [], ◌∷◌, if◌then◌else◌,
}
use log_monitor_tenex.Store.Tables.{Db}

pub data Result (E A : Type 0) : Type 0 where
  ok : A → Result E A
  err : E → Result E A

-- A key of Redis: its value, and the time at which it expires.
pub record Cell : Type 0 where
  pub value : ℕ
  pub expires : Option ℕ

pub data JobKind : Type 0 where
  map_job reduce_job : JobKind

-- queue.go, `Job`.
pub record Job : Type 0 where
  pub kind : JobKind
  pub analysis_id : ℕ
  pub upload_id : ℕ
  pub org_id : ℕ
  pub user_id : ℕ
  pub shard : ℕ
  pub shard_count : ℕ
  pub offset : ℕ
  pub limit : ℕ
  pub scope : Text
  pub baseline_window_days : Option ℕ

pub record World : Type 0 where
  pub db : Db
  pub redis : Text → Option Cell
  pub jobs : List Job
  pub bucket : List Text
  pub now : ℕ
  pub fresh : ℕ
  pub faults : List Bool

abbrev pub Exec : Type 0 → Type 0 → Type 0
Exec E A = World → Result E A × World

module _ {E A : Type 0} where
  unfoldable pub pure : A → Exec E A
  pure a w = (ok a, w)

  unfoldable pub raise : E → Exec E A
  raise e w = (err e, w)

  unfoldable pub lift : Result E A → Exec E A
  lift r w = (r, w)

  unfoldable pub gets : (World → A) → Exec E A
  gets f w = (ok (f w), w)

module _ {E F A : Type 0} where
  abbrev pub map_err : (E → F) → Result E A → Result F A
  map_err f (ok a) = ok a
  map_err f (err e) = err (f e)

  -- An error is passed on in another form.
  unfoldable pub or_else : (E → F) → Exec E A → Exec F A
  or_else f m w = let (r, w') = m w in (map_err f r, w')

  -- An error is a value that the code looks at.
  unfoldable pub try : Exec E A → Exec F (Result E A)
  try m w = let (r, w') = m w in (ok r, w')

module _ {E : Type 0} where
  unfoldable pub guard : Bool → E → Exec E (Unit {0})
  guard true e w = (ok tt, w)
  guard false e w = (err e, w)

-- `gen_random_uuid()` and `uuid.New()`: an identifier that was not given out before.
unfoldable pub fresh_id : {E : Type 0} → Exec E ℕ
fresh_id w = (ok w.fresh, record w { fresh = suc w.fresh })

abbrev first_fails : List Bool → Bool
first_fails [] = false
first_fails (b ∷ bs) = b

abbrev rest_of : List Bool → List Bool
rest_of [] = []
rest_of (b ∷ bs) = bs

-- Whether the next call to an outside service fails, and the world when it is over.
unfoldable pub fails : World → Bool
fails w = first_fails w.faults

unfoldable pub called : World → World
called w = record w { faults = rest_of w.faults }

-- The errors of the store: its sentinels, and any failure of the database.
pub data Error : Type 0 where
  not_found email_taken slug_taken no_recovery_code unavailable : Error

module _ {A : Type 0} where
  abbrev pub or_not_found : Option A → Result Error A
  or_not_found none = err not_found
  or_not_found (some a) = ok a

  -- A query that reads.
  unfoldable pub select : (World → Result Error A) → Exec Error A
  select f w = if fails w then (err unavailable, called w) else (f w, called w)

  abbrev committed : Result Error (A × Db) → World → Result Error A × World
  committed (ok (a, d)) w = (ok a, record w { db = d })
  committed (err e) w = (err e, w)

  -- A statement that writes, or a transaction: all of it or, on any failure, nothing.
  unfoldable pub update : (World → Result Error (A × Db)) → Exec Error A
  update f w = if fails w then (err unavailable, called w) else committed (f w) (called w)

-- To open `◌>>=◌` is to open the other ways to build an action too.
module _ {E A B : Type 0} where
  abbrev continue : Result E A → (A → Exec E B) → Exec E B
  continue (ok a) f w = f a w
  continue (err e) f w = (err e, w)

  infixl 10 ◌>>=◌ ◌>>◌
  unfoldable pub ◌>>=◌ : Exec E A → (A → Exec E B) → Exec E B
  unfolding pure raise lift gets or_else try guard fresh_id fails called select update
  ◌>>=◌ m f w = let (r, w') = m w in continue r f w'

  abbrev pub ◌>>◌ : Exec E A → Exec E B → Exec E B
  m >> n = m >>= λ _. n

-- Redis. A key counts as long as its time has not come.
abbrev pub Keys : Type 0
Keys = Text → Option Cell

abbrev pub is_current : ℕ → Option ℕ → Bool
is_current now none = true
is_current now (some t) = ltb now t

abbrev current : ℕ → Option Cell → Option Cell
current now none = none
current now (some c) = if is_current now c.expires then some c else none

unfoldable pub key_of : World → Text → Option Cell
key_of w k = current w.now (w.redis k)

unfoldable pub put_key : Text → Option Cell → Keys → Keys
put_key k v m j = if text_eq k j then v else m j

-- A command, or a transaction of commands, that reads or writes keys.
unfoldable pub command : {A : Type 0} → (World → A × Keys) → Exec Error A
unfolding key_of put_key fails called
command f w =
    if fails w
    then (err unavailable, called w)
    else (let (a, keys) = f w in (ok a, record (called w) { redis = keys }))
