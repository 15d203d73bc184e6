-- ===== src/Examples/Limits.antt =====
-- The rate limiter and the queue at work.
use log_monitor_tenex.Prelude.{
  ℕ, Text, codes, none, some, List, [], ◌∷◌, ◌≡◌, refl, ◌⊎◌, arith, trim_space, to_lower, count_if,
  leb,
}
use log_monitor_tenex.World.{World, Cell, Job, JobKind, Error, ok, err, key_of, put_key}
use log_monitor_tenex.RateLimit.{Decision, check, account_key, record_failure, ip_limit}
use log_monitor_tenex.RateLimit.{lock_key}
use log_monitor_tenex.RateLimit.Limits.{later}
use log_monitor_tenex.Http.{Response}
use log_monitor_tenex.Handlers.Request.{Request}
use log_monitor_tenex.Handlers.Auth.{LoginRequest, login, invalid_credentials, is_limited}
use log_monitor_tenex.Handlers.Auth.Locked.{account_locks}
use log_monitor_tenex.RateLimit.Windows.{
  throttled_iff_twenty, Failure, IsWithin, one_more, none_left, after_failures, is_from,
}
use log_monitor_tenex.Queue.{fan_out}
use log_monitor_tenex.Queue.Shards.{takes, fan_out_partitions}
use log_monitor_tenex.Examples.Sample.{gateway, start}

abbrev nine : Cell
nine = record { value = 9; expires = some 2500 }

-- The account of `a@x` after nine failures.
abbrev suspicious : World
suspicious = record start {
  redis = put_key (account_key gateway (codes "a@x")) (some nine) (λ k. none);
}

-- A right password, from another address.
abbrev from_elsewhere : Request
from_elsewhere = record {
  forwarded_for = [];
  real_ip = [];
  remote_addr = codes "5.6.7.8";
  session_cookie = none;
  mfa_cookie = none;
}

abbrev right : LoginRequest
right = record { email = codes "A@x "; password = codes "correct horse" }

-- Almost fifteen minutes after the tenth failure.
abbrev locked : World
locked =
    later (record_failure gateway (codes "1.2.3.4") (codes "a@x") {E = Error} suspicious).1 1899 []

account_locks_example :
    (r : Response) × ((login gateway from_elsewhere (some right) locked).0 ≡ err r)
    × ((r ≡ invalid_credentials) ⊎ (r.status ≡ 429))
unfolding key_of put_key account_key lock_key is_limited trim_space to_lower
account_locks_example =
    account_locks gateway (codes "1.2.3.4") (codes "a@x") suspicious nine refl refl refl
      (ground arith) from_elsewhere right locked refl refl refl (ground arith)

abbrev failed_login : ℕ → Text → Failure
failed_login t ip = record { at = t; ip = ip; account = codes "a@x" }

abbrev three : List Failure
three =
    failed_login 1000 (codes "1.2.3.4")
    ∷ failed_login 1010 (codes "5.6.7.8")
    ∷ failed_login 1020 (codes "1.2.3.4")
    ∷ []

three-IsWithin : IsWithin 1000 three
three-IsWithin =
    one_more (ground arith) (ground arith)
      (one_more (ground arith) (ground arith) (one_more (ground arith) (ground arith) none_left))

throttled_iff_twenty_example :
    (d : Decision) × ((check gateway
        (codes "1.2.3.4")
        (codes "a@x")
        {E = Error}
        (later (after_failures gateway three start) 1030 [])).0
      ≡ ok d)
    × (d.ip_throttled ≡ leb ip_limit (count_if (is_from (codes "1.2.3.4")) three))
throttled_iff_twenty_example =
    throttled_iff_twenty gateway (codes "1.2.3.4") (codes "a@x") 1000 1030 three start refl
      three-IsWithin (ground arith)

abbrev job : Job
job = record {
  kind = JobKind.map_job;
  analysis_id = 100;
  upload_id = 5;
  org_id = 7;
  user_id = 1;
  shard = 0;
  shard_count = 0;
  offset = 0;
  limit = 0;
  scope = codes "file";
  baseline_window_days = none;
}

fan_out_partitions_example : count_if (takes 2) (fan_out job 3 2) ≡ 1
fan_out_partitions_example =
    fan_out_partitions job 3 2 2 (ground arith) (ground arith) (ground arith)
