-- ===== src/Handlers/Request.antt =====
-- backend/gateway/internal/handlers/handlers.go: what the handlers read of a request, `clientIP`
-- and `slugify`; and the byte length that Go's `len` gives for a text.
pub mod Slug
use log_monitor_tenex.Prelude.{
  ℕ, ◌+◌, Text, Bool, true, false, Option, none, some, [], ◌∷◌, map, ◌==◌, ltb, leb, ◌&&◌, ◌||◌,
  if◌then◌else◌, trim_space, trim, to_lower,
}
use log_monitor_tenex.Api.{Api}

pub record Request : Type 0 where
  pub forwarded_for : Text
  pub real_ip : Text
  pub remote_addr : Text
  pub session_cookie : Option Text
  pub mfa_cookie : Option Text

-- What stands before the first comma, where there is one.
unfoldable pub before_comma : Text → Option Text
before_comma [] = none
before_comma (c ∷ s) =
    let rest = before_comma s in
    if c == b',' then some [] else elim rest [ none ↦ none | some t ↦ some (c ∷ t) ]

abbrev first_address : Text → Option Text → Text
first_address xff (some (c ∷ s)) = trim_space (c ∷ s)
first_address xff _ = trim_space xff

abbrev is_empty : Text → Bool
is_empty [] = true
is_empty (c ∷ s) = false

abbrev host_or : Text → Option Text → Text
host_or addr none = addr
host_or addr (some host) = host

-- `clientIP`
unfoldable pub client_ip : Api → Request → Text
unfolding before_comma trim_space
client_ip api r =
    if is_empty r.forwarded_for
    then (if is_empty r.real_ip
        then host_or r.remote_addr (api.split_host_port r.remote_addr)
        else trim_space r.real_ip)
    else first_address r.forwarded_for (before_comma r.forwarded_for)

unfoldable pub is_slug_char : ℕ → Bool
is_slug_char c = (leb b'a' c && leb c b'z') || (leb b'0' c && leb c b'9')

-- `slugRe.ReplaceAllString(…, "-")`: each longest run of other characters becomes one dash. The
-- flag says that the run at hand has its dash.
unfoldable pub dashed : Bool → Text → Text
unfolding is_slug_char
dashed in_run [] = []
dashed in_run (c ∷ s) =
    let rest = dashed (if is_slug_char c then false else true) s in
    if is_slug_char c then c ∷ rest else if in_run then rest else b'-' ∷ rest

-- `slugify`
unfoldable pub slugify : Text → Text
unfolding dashed trim to_lower
slugify s = trim (λ c. c == b'-') (dashed false (map to_lower s))

-- The length of a text in UTF-8.
unfoldable pub byte_length : Text → ℕ
byte_length [] = 0
byte_length (c ∷ s) =
    (if ltb c 0x80 then 1 else if ltb c 0x800 then 2 else if ltb c 0x10000 then 3 else 4)
    + byte_length s
