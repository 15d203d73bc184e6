-- ===== src/RateLimit/Windows.antt =====
-- ratelimit.go: the counter of an address against the sequence of failed logins.
use log_monitor_tenex.Prelude.{
  ℕ, suc, ◌+◌, ◌≤◌, ◌<◌, Text, text_eq, text_eq_iff, Bool, true, false, Option, none, some, List,
  [], ◌∷◌, ◌≡◌, refl, ap, sym, ◌⊎◌, inl, inr, arith, leb, Bool-cases, count_if,
}
use log_monitor_tenex.Api.{Api}
use log_monitor_tenex.World.{World, Cell, ok, Error, key_of, put_key, command, ◌>>=◌}
use log_monitor_tenex.World.Rules.{Result-cases}
use log_monitor_tenex.RateLimit.Rules.{Total-check}
use log_monitor_tenex.RateLimit.Limits.{account_key-differs, lock_key-differs, later}
use log_monitor_tenex.RateLimit.{
  Decision, check, record_failure, ip_limit, ip_window, ip_key, get, exists, ttl, count_failure,
  set_key, counted,
}

-- A failed login: its time, its address and the account that it was for.
pub record Failure : Type 0 where
  pub at : ℕ
  pub ip : Text
  pub account : Text

-- The world after a sequence of failed logins.
unfoldable pub after_failures : Api → List Failure → World → World
after_failures api [] w = w
after_failures api (f ∷ fs) w =
    after_failures api fs (record_failure api f.ip f.account {E = Error} (later w f.at [])).1

-- All of a sequence happens from `t0` on and within a window's length.
pub data IsWithin (t0 : ℕ) : List Failure → Type 0 where
  none_left : IsWithin t0 []
  one_more :
      {f : Failure} {fs : List Failure}
      → t0 ≤ f.at
      → f.at < t0 + ip_window
      → IsWithin t0 fs
      → IsWithin t0 (f ∷ fs)

abbrev pub is_from : Text → Failure → Bool
is_from ip f = text_eq f.ip ip

-- The cell of an address after `n` failures in a window from `t0`.
IsCount : ℕ → ℕ → Option Cell → Type 0
IsCount t0 n cell =
    ((n ≡ 0) × (cell ≡ none))
    ⊎ ((t : ℕ) × (cell ≡ some (record { value = n; expires = some t })) × (t0 + ip_window ≤ t))

abbrev failed_at : Api → Failure → World → World
failed_at api f w = (record_failure api f.ip f.account {E = Error} (later w f.at [])).1

ip_key-injective : (ip ip' : Text) → text_eq (ip_key ip) (ip_key ip') ≡ text_eq ip ip'
unfolding ip_key
ip_key-injective ip ip' = refl

module _ (api : Api) (f : Failure) (w : World) (ip : Text) where
  failed_at-other :
      text_eq f.ip ip ≡ false → (failed_at api f w).redis (ip_key ip) ≡ w.redis (ip_key ip)
  unfolding record_failure count_failure set_key command ◌>>=◌ put_key
  failed_at-other other = ground (
    arith,
    other,
    ip_key-injective f.ip ip,
    account_key-differs api f.account ip,
    lock_key-differs api f.account ip,
  )

  failed_at-same :
      text_eq f.ip ip ≡ true
      → (failed_at api f w).redis (ip_key ip)
        ≡ some (counted f.at ip_window (key_of (later w f.at []) (ip_key f.ip)))
  unfolding record_failure count_failure set_key command ◌>>=◌ put_key
  failed_at-same same = ground (
    arith,
    same,
    ip_key-injective f.ip ip,
    account_key-differs api f.account ip,
    lock_key-differs api f.account ip,
  )

  failed_at-IsCount :
      (t0 n : ℕ)
      → t0 ≤ f.at
      → f.at < t0 + ip_window
      → text_eq f.ip ip ≡ true
      → IsCount t0 n (w.redis (ip_key ip))
      → IsCount t0 (suc n) ((failed_at api f w).redis (ip_key ip))
  unfolding IsCount key_of
  failed_at-IsCount t0 n from upto same (inl (none_yet, empty)) =
      let e : f.ip ≡ ip = (text_eq_iff f.ip ip).0 same in
      let cell = ap (λ x. key_of (later w f.at []) (ip_key x)) e in
      inr (f.at + ip_window, ground (arith, failed_at-same same, cell), ground arith)
  failed_at-IsCount t0 n from upto same (inr (t, cell, end)) =
      let e : f.ip ≡ ip = (text_eq_iff f.ip ip).0 same in
      let now = ap (λ x. key_of (later w f.at []) (ip_key x)) e in
      inr (t, ground (arith, failed_at-same same, now), end)

IsCount-number :
    (t0 : ℕ) {n m : ℕ} (cell : Option Cell) → n ≡ m → IsCount t0 n cell → IsCount t0 m cell
IsCount-number t0 cell e is = rw (sym e) is

after_failures-IsCount :
    (api : Api) (ip : Text) (t0 n : ℕ) (fs : List Failure) (w : World)
    → IsWithin t0 fs
    → IsCount t0 n (w.redis (ip_key ip))
    → IsCount t0 (n + count_if (is_from ip) fs) ((after_failures api fs w).redis (ip_key ip))
unfolding after_failures
after_failures-IsCount api ip t0 n [] w none_left is = IsCount-number t0 _ (omega arith) is
after_failures-IsCount api ip t0 n (f ∷ fs) w (one_more from upto rest) is =
    elim (Bool-cases (text_eq f.ip ip)) [
      | inl same ↦
          let once = failed_at-IsCount api f w ip t0 n from upto same is in
          IsCount-number t0 _ (ground arith)
            (after_failures-IsCount api ip t0 (suc n) fs (failed_at api f w) rest once)
      | inr other ↦
          let kept = failed_at-other api f w ip other in
          IsCount-number t0 _ (ground arith)
            (after_failures-IsCount api ip t0 n fs (failed_at api f w) rest (rw kept is))
    ]

check-ip_throttled :
    (api : Api) (ip account : Text) (w : World) (t0 n : ℕ)
    → IsCount t0 n (w.redis (ip_key ip))
    → w.faults ≡ []
    → w.now < t0 + ip_window
    → (d : Decision) × ((check api ip account {E = Error} w).0 ≡ ok d)
      × (d.ip_throttled ≡ leb ip_limit n)
unfolding check get exists ttl command ◌>>=◌ key_of IsCount
check-ip_throttled api ip account w t0 n is up before =
    elim (Result-cases (check api ip account {E = Error} w).0) [
      | inl (d, e) ↦ (d, e, ground arith)
      | inr (x, e) ↦ absurd ((Total-check api ip account).at w x e)
    ]

-- Failed logins, from any addresses and for any accounts, within five minutes of `t0`, when the
-- address had no counter, and Redis answers at each of them: until those five minutes are over,
-- `Check`, where Redis answers it, throttles the address exactly if twenty or more of them came from
-- it.
pub throttled_iff_twenty :
    (api : Api) (ip account : Text) (t0 t : ℕ) (fs : List Failure) (w : World)
    → w.redis (ip_key ip) ≡ none
    → IsWithin t0 fs
    → t < t0 + ip_window
    → (d : Decision) × ((check api ip account {E = Error} (later (after_failures api fs w) t [])).0
        ≡ ok d)
      × (d.ip_throttled ≡ leb ip_limit (count_if (is_from ip) fs))
unfolding IsCount
throttled_iff_twenty api ip account t0 t fs w empty within before =
    check-ip_throttled api ip account (later (after_failures api fs w) t []) t0
      (count_if (is_from ip) fs)
      (IsCount-number t0 _ (omega arith)
        (after_failures-IsCount api ip t0 0 fs w within (inl (refl, empty))))
      refl before
