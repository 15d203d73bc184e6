-- ===== src/RateLimit/Rules.antt =====
-- ratelimit.go: the limiter never touches the database, and none of its operations fails a request.
use log_monitor_tenex.Prelude.{ℕ, Text}
use log_monitor_tenex.Api.{Api}
use log_monitor_tenex.World.Rules.{Reads, Total, action_rules}
use log_monitor_tenex.RateLimit.{
  get, exists, ttl, check, count_failure, set_key, record_failure, reset, consume,
}

pub Reads-get : (k : Text) → Reads (get k)
unfolding get
Reads-get k = search action_rules

pub Reads-exists : (k : Text) → Reads (exists k)
unfolding exists
Reads-exists k = search action_rules

pub Reads-ttl : (k : Text) → Reads (ttl k)
unfolding ttl
Reads-ttl k = search action_rules

pub Reads-count_failure : (i a : Text) → Reads (count_failure i a)
unfolding count_failure
Reads-count_failure i a = search action_rules

pub Reads-set_key : (k : Text) (n : ℕ) → Reads (set_key k n)
unfolding set_key
Reads-set_key k n = search action_rules

pub Reads-consume : (k : Text) (n : ℕ) → Reads (consume k n)
unfolding consume
Reads-consume k n = search action_rules

ruleset parts =
    (action_rules, Reads-get, Reads-exists, Reads-ttl, Reads-count_failure, Reads-set_key)

module _ (api : Api) {E : Type 0} where
  pub Reads-check : (ip account : Text) → Reads {E = E} (check api ip account)
  unfolding check
  Reads-check ip account = search parts depth 20

  pub Reads-record_failure : (ip account : Text) → Reads {E = E} (record_failure api ip account)
  unfolding record_failure
  Reads-record_failure ip account = search parts depth 20

  pub Reads-reset : (account : Text) → Reads {E = E} (reset api account)
  unfolding reset
  Reads-reset account = search parts depth 20

  pub Total-check : (ip account : Text) → Total {E = E} (check api ip account)
  unfolding check
  Total-check ip account = search parts depth 20

  pub Total-record_failure : (ip account : Text) → Total {E = E} (record_failure api ip account)
  unfolding record_failure
  Total-record_failure ip account = search parts depth 20

  pub Total-reset : (account : Text) → Total {E = E} (reset api account)
  unfolding reset
  Total-reset account = search parts depth 20

pub ruleset limiter_rules = (
  Reads-consume, Reads-check, Reads-record_failure, Reads-reset, Total-check, Total-record_failure,
  Total-reset,
)
