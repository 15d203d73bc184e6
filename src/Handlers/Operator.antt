-- ===== src/Handlers/Operator.antt =====
-- backend/gateway/internal/handlers/handlers.go and metrics.go: the two endpoints for operators.
use log_monitor_tenex.Prelude.{Text, codes, text_eq, not, ◌||◌, if◌then◌else◌, trim_prefix}
use log_monitor_tenex.Parser.{is_empty}
use log_monitor_tenex.Http.{Handler, ProcessMetrics, health_body, metrics_body, json, fail_if}
use log_monitor_tenex.World.{pure, ◌>>◌}

-- `health`
unfoldable pub health : Handler
health = pure (json 200 health_body)

-- The token of an operator: its own header, or else a bearer token.
unfoldable pub operator_token : Text → Text → Text
unfolding trim_prefix
operator_token own authorization =
    if is_empty own then trim_prefix (codes "Bearer ") authorization else own

-- `metrics`, with the configured token, the two headers and the figures of `processMetrics`.
unfoldable pub metrics : Text → Text → Text → ProcessMetrics → Handler
unfolding operator_token
metrics configured own authorization figures = do
  fail_if (is_empty configured || not (text_eq (operator_token own authorization) configured)) 401
      "Not authenticated"
  pure (json 200 (metrics_body figures))
