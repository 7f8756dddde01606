-- ===== src/Promql.antt =====
-- internal/promql/builder.go: the query texts.
use agentic_autoscaler.Prelude.{String, concat, [], ◌∷◌}

unfoldable pub instant_rps : String → String
instant_rps deployment_name =
    concat ("sum(rate(http_requests_total{deployment=\"" ∷ deployment_name ∷ "\"}[2m]))" ∷ [])

unfoldable pub range_rps : String → String
unfolding instant_rps
range_rps deployment_name = instant_rps deployment_name
