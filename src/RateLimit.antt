-- ===== src/RateLimit.antt =====
-- backend/gateway/internal/ratelimit/ratelimit.go: counters of failed logins, and single-use codes.
-- Times and durations are in seconds.
pub mod Rules
pub mod Limits
pub mod Windows
use log_monitor_tenex.Prelude.{
  ℕ, suc, ◌+◌, ◌-◌, ◌*◌, not, String, Text, codes, text_eq, to_lower, trim_space, Bool, true, false,
  Option, none, some, List, ◌++◌, map, ltb, leb, if◌then◌else◌,
}
use log_monitor_tenex.Api.{Api}
use log_monitor_tenex.World.{
  World, Cell, Exec, Result, ok, err, Error, Keys, key_of, put_key, command, try, pure, ◌>>=◌, ◌>>◌,
}

abbrev pub ip_limit : ℕ
ip_limit = 20

abbrev pub ip_window : ℕ
ip_window = 5 * 60

abbrev pub acct_limit : ℕ
acct_limit = 10

abbrev pub acct_window : ℕ
acct_window = 30 * 60

abbrev pub lock_duration : ℕ
lock_duration = 15 * 60

pub record Decision : Type 0 where
  pub allowed : Bool
  pub ip_throttled : Bool
  pub account_locked : Bool
  pub retry_after : ℕ

unfoldable pub account_key : Api → Text → Text
unfolding trim_space to_lower
account_key api account = codes "rl:acct:" ++ api.digest (map to_lower (trim_space account))

unfoldable pub lock_key : Api → Text → Text
unfolding account_key
lock_key api account = account_key api account ++ codes ":lock"

unfoldable pub ip_key : Text → Text
ip_key ip = codes "rl:ip:" ++ ip

abbrev count_of : Option Cell → ℕ
count_of none = 0
count_of (some c) = c.value

abbrev is_there : Option Cell → Bool
is_there none = false
is_there (some c) = true

-- `TTL`; a key without one answers -1, for which 0 stands here.
abbrev ttl_of : ℕ → Option Cell → ℕ
ttl_of now none = 0
ttl_of now (some c) = elim c.expires [ none ↦ 0 | some t ↦ t - now ]

unfoldable pub get : Text → Exec Error ℕ
get k = command λ w. (count_of (key_of w k), w.redis)

unfoldable pub exists : Text → Exec Error Bool
exists k = command λ w. (is_there (key_of w k), w.redis)

unfoldable pub ttl : Text → Exec Error ℕ
ttl k = command λ w. (ttl_of w.now (key_of w k), w.redis)

abbrev pub allow : Decision
allow = record { allowed = true; ip_throttled = false; account_locked = false; retry_after = 0 }

abbrev throttled : Result Error ℕ → Decision
throttled (ok t) = record {
  allowed = false;
  ip_throttled = true;
  account_locked = false;
  retry_after = t;
}
throttled (err e) = record {
  allowed = false;
  ip_throttled = true;
  account_locked = false;
  retry_after = 0;
}

abbrev locked : Result Error Bool → Decision
locked (ok true) = record {
  allowed = false;
  ip_throttled = false;
  account_locked = true;
  retry_after = 0;
}
locked _ = allow

abbrev over_limit : Result Error ℕ → Bool
over_limit (ok n) = leb ip_limit n
over_limit (err e) = false

abbrev over_account : Result Error ℕ → Bool
over_account (ok n) = leb acct_limit n
over_account (err e) = false

abbrev reachable : Result Error ℕ → Bool
reachable (ok n) = true
reachable (err e) = false

-- `Check`
unfoldable pub check : Api → Text → Text → {E : Type 0} → Exec E Decision
unfolding get exists ttl ip_key lock_key
check api ip account = do
  ip_count ← try (get (ip_key ip))
  if not (reachable ip_count)
      then pure allow
      else if over_limit ip_count
      then (do left ← try (ttl (ip_key ip)); pure (throttled left))
      else (do found ← try (exists (lock_key api account)); pure (locked found))

-- `INCR` and `EXPIRE ... NX` on one key: the window is that of the first failure.
abbrev counted : ℕ → ℕ → Option Cell → Cell
counted now window none = record { value = 1; expires = some (now + window) }
counted now window (some c) = record {
  value = suc c.value;
  expires = elim c.expires [ none ↦ some (now + window) | some t ↦ some t ];
}

-- The pipeline of `RecordFailure`; it returns the account's count.
unfoldable pub count_failure : Text → Text → Exec Error ℕ
count_failure ik ak = command λ w.
    let by_ip = counted w.now ip_window (key_of w ik) in
    let by_account = counted w.now acct_window (key_of w ak) in
    (by_account.value, put_key ak (some by_account) (put_key ik (some by_ip) w.redis))

unfoldable pub set_key : Text → ℕ → Exec Error Unit
set_key k duration =
    command
      λ w. (tt, put_key k (some (record { value = 1; expires = some (w.now + duration) })) w.redis)

-- `RecordFailure`: failures of Redis are logged and no more.
unfoldable pub record_failure : Api → Text → Text → {E : Type 0} → Exec E Unit
unfolding count_failure set_key ip_key lock_key account_key
record_failure api ip account = do
  n ← try (count_failure (ip_key ip) (account_key api account))
  if over_account n
      then (do try {E = Error} (set_key (lock_key api account) lock_duration); pure tt)
      else pure tt

-- `Reset`
unfoldable pub reset : Api → Text → {E : Type 0} → Exec E Unit
unfolding lock_key account_key
reset api account = do
  try {E = Error} (
      command {A = Unit} λ w.
        (tt, put_key (account_key api account) none (put_key (lock_key api account) none w.redis)))
  pure tt

-- `Consume`: `SETNX`, true where the key was not there.
unfoldable pub consume : Text → ℕ → Exec Error Bool
consume key duration = command λ w.
    let k = codes "used:" ++ key in
    if is_there (key_of w k)
    then (false, w.redis)
    else (true, put_key k (some (record { value = 1; expires = some (w.now + duration) })) w.redis)
