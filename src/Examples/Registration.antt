-- ===== src/Examples/Registration.antt =====
-- A new organization registers beside the sample, and its owner signs in.
use log_monitor_tenex.Prelude.{codes, none, some, [], ◌≡◌, refl, sym, arith, text_eq_refl}
use log_monitor_tenex.World.{World, ok, command}
use log_monitor_tenex.Http.{serve}
use log_monitor_tenex.Store.Users.{create_org_with_owner, insert_user}
use log_monitor_tenex.RateLimit.{check, get, exists, ttl}
use log_monitor_tenex.Handlers.Request.{Request, byte_length, slugify}
use log_monitor_tenex.Handlers.Auth.{RegisterRequest, register, login, first_session, check_limits}
use log_monitor_tenex.Handlers.Auth.Register.{owner_of}
use log_monitor_tenex.Handlers.Auth.Newcomer.{HashFits, signed_in, login-register}
use log_monitor_tenex.Session.{issue, claims_for, purpose_session, token_ttl}
use log_monitor_tenex.Examples.Sample.{gateway, start, token_of}
use log_monitor_tenex.RateLimit.Limits.{later}

abbrev newcomer : RegisterRequest
newcomer = record {
  org_name = codes " New ";
  email = codes "N@y ";
  password = codes "battery staple";
}

gateway-HashFits : HashFits gateway
gateway-HashFits salt p h made = let same : p ≡ h = ground arith in rw (sym same) (text_eq_refl p)

abbrev request : Request
request = record {
  forwarded_for = [];
  real_ip = [];
  remote_addr = codes "1.2.3.4";
  session_cookie = none;
  mfa_cookie = none;
}

-- A minute after the registration.
abbrev next : World
next = later (register gateway (some newcomer) start).1 1060 []

login-register_example :
    (login gateway request
      (some (record { email = codes "n@Y"; password = codes "battery staple" }))
      next).0
    ≡ ok (
        signed_in (owner_of newcomer (codes "battery staple") 100 1000) (
          token_of (
            claims_for gateway
              (owner_of newcomer (codes "battery staple") 100 1000)
              purpose_session
              token_ttl
              1060)))
unfolding register first_session create_org_with_owner insert_user check_limits check get exists ttl
    command issue byte_length slugify serve
login-register_example =
    login-register gateway newcomer (codes "battery staple") start gateway-HashFits (refl, refl)
      refl refl request (codes "n@Y") next refl refl refl refl refl
