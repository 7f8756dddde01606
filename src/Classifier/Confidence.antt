-- ===== src/Classifier/Confidence.antt =====
-- internal/classifier/confidence.go and the pattern names of classify.go.
use agentic_autoscaler.Prelude.{ℤ, String, leb_ℤ, if◌then◌else◌}

abbrev pub high : String
high = "high"

abbrev pub medium : String
medium = "medium"

unfoldable pub confidence : ℤ → ℤ → ℤ → String
confidence history_points high_threshold min_threshold =
    if leb_ℤ high_threshold history_points
    then high
    else if leb_ℤ min_threshold history_points
    then medium
    else ""
