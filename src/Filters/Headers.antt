-- ===== src/Filters/Headers.antt =====
-- backend/gateway/internal/httpx/headers.go: the security headers of every answer.
use log_monitor_tenex.Prelude.{
  String, Text, codes, text_eq, Bool, List, [], ◌∷◌, ◌++◌, ◌||◌, if◌then◌else◌,
}

-- The headers that are always set.
abbrev pub fixed_headers : List (String × String)
fixed_headers =
    ("X-Content-Type-Options", "nosniff")
    ∷ ("X-Frame-Options", "DENY")
    ∷ ("Referrer-Policy", "strict-origin-when-cross-origin")
    ∷ ("Cross-Origin-Opener-Policy", "same-origin")
    ∷ ("Content-Security-Policy", "default-src 'none'; frame-ancestors 'none'")
    ∷ []

-- `SecurityHeaders`, with whether the connection is over TLS and the header `X-Forwarded-Proto`.
unfoldable pub security_headers : Bool → Text → List (String × String)
security_headers tls forwarded =
    if tls || text_eq forwarded (codes "https")
    then fixed_headers ++ ("Strict-Transport-Security", "max-age=31536000; includeSubDomains") ∷ []
    else fixed_headers
