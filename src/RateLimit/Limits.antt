-- ===== src/RateLimit/Limits.antt =====
-- ratelimit.go: what the counters mean, one operation after another.
use log_monitor_tenex.Prelude.{
  ℕ, suc, ◌+◌, ◌≤◌, ◌<◌, Text, codes, text_eq, text_eq_refl, Bool, true, false, none, some, List,
  [], ◌≡◌, refl, ◌⊎◌, inl, inr, Bool-cases, arith, ◌++◌,
}
use log_monitor_tenex.Api.{Api}
use log_monitor_tenex.World.{World, Cell, ok, Error, key_of, put_key, command, called, fails, ◌>>=◌}
use log_monitor_tenex.World.Rules.{Result-cases}
use log_monitor_tenex.RateLimit.Rules.{Total-check}
use log_monitor_tenex.RateLimit.{
  Decision, check, record_failure, reset, consume, acct_limit, lock_duration, ip_key, account_key,
  lock_key, get, exists, ttl, count_failure, set_key,
}

-- The same world at a later time, with other calls that fail.
abbrev pub later : World → ℕ → List Bool → World
later w t fs = record w { now = t; faults = fs }

-- A code that is used once is refused until its time is over: after a first `Consume` the second
-- answers false, at any time before the key expires, wherever both reach Redis.
pub consume_once :
    (key : Text) (duration : ℕ) (w : World) (t : ℕ) (fs : List Bool)
    → (consume key duration w).0 ≡ ok true
    → t < w.now + duration
    → fails (later w t fs) ≡ false
    → (consume key duration (later (consume key duration w).1 t fs)).0 ≡ ok false
unfolding consume command key_of put_key fails called
consume_once key duration w t fs first before up =
    let same = text_eq_refl (codes "used:" ++ key) in ground (arith, same)

-- The tenth failure within the window of an account, or a later one, sets the lock.
pub record_failure-lock :
    (api : Api) (ip account : Text) (w : World) (c : Cell)
    → w.faults ≡ []
    → key_of w (account_key api account) ≡ some c
    → acct_limit ≤ suc c.value
    → (record_failure api ip account {E = Error} w).1.redis (lock_key api account)
      ≡ some (record { value = 1; expires = some (w.now + lock_duration) })
unfolding record_failure count_failure set_key command ◌>>=◌ put_key
record_failure-lock api ip account w c up found many =
    let same = text_eq_refl (lock_key api account) in ground (arith, same)

-- Where an account is locked, Check says so, or says that the address is throttled.
pub check-locked :
    (api : Api) (ip account : Text) {E : Type 0} (w : World) (t : ℕ)
    → w.faults ≡ []
    → w.redis (lock_key api account) ≡ some (record { value = 1; expires = some t })
    → w.now < t
    → (d : Decision) × ((check api ip account {E = E} w).0 ≡ ok d)
      × ((d.ip_throttled ≡ true) ⊎ ((d.ip_throttled ≡ false) × (d.account_locked ≡ true)))
unfolding check get exists ttl command ◌>>=◌ key_of
check-locked api ip account {E} w t up found before =
    elim (Result-cases (check api ip account {E = E} w).0) [
      | inl (d, e) ↦ (
        d,
        e,
        elim (Bool-cases d.ip_throttled) [
          | inl busy ↦ inl busy
          | inr free ↦ inr (free, ground arith)
        ],
      )
      | inr (x, e) ↦ absurd ((Total-check api ip account).at w x e)
    ]

-- The keys of addresses are none of the others.
pub account_key-differs :
    (api : Api) (account ip : Text) → text_eq (account_key api account) (ip_key ip) ≡ false
unfolding account_key ip_key
account_key-differs api account ip = refl

pub lock_key-differs :
    (api : Api) (account ip : Text) → text_eq (lock_key api account) (ip_key ip) ≡ false
unfolding lock_key account_key ip_key
lock_key-differs api account ip = refl

-- A reset forgets the failures of the account and its lock, and keeps the counter of every address.
pub reset_keeps_ip :
    (api : Api) (account ip : Text) (w : World)
    → fails w ≡ false
    → (key_of (reset api account {E = Error} w).1 (account_key api account) ≡ none)
      × (key_of (reset api account {E = Error} w).1 (lock_key api account) ≡ none)
      × (key_of (reset api account {E = Error} w).1 (ip_key ip) ≡ key_of w (ip_key ip))
unfolding reset command ◌>>=◌ key_of put_key
reset_keeps_ip api account ip w up =
    let same = text_eq_refl (account_key api account) in
    let same' = text_eq_refl (lock_key api account) in
    (
      ground (arith, same),
      ground (arith, same'),
      ground (arith, account_key-differs api account ip, lock_key-differs api account ip),
    )
