-- ===== src/Tests/Statistics.antt =====
-- An example for the statistics over reports.
use jim_tf.Base.{ℕ, ◌+◌, ◌≡◌, String, none, some, List, [], ◌∷◌, Dict, length, min}
use jim_tf.Dashboard.{Loaded, compute_stats}
use jim_tf.Dashboard.Sums.{sum_of, flows_of, incidents_of, compute_stats-sums}

abbrev reports : List Loaded
reports =
    record { status = some "clean"; flows_analyzed = 12; incidents = []; timestamp = "t0" }
    ∷ record {
      status = some "alert";
      flows_analyzed = 30;
      timestamp = "t1";
      incidents =
          record { severity = some "HIGH"; title = none }
          ∷ record { severity = none; title = none }
          ∷ [];
    }
    ∷ []

abbrev ranks : Dict String ℕ
ranks = ("CRITICAL", 4) ∷ ("HIGH", 3) ∷ ("MEDIUM", 2) ∷ ("LOW", 1) ∷ ("INFO", 0) ∷ []

compute_stats-sums_example :
    ((compute_stats (λ t. t) ranks reports).clean_runs
        + (compute_stats (λ t. t) ranks reports).alert_runs
      ≡ length reports)
    × ((compute_stats (λ t. t) ranks reports).total_flows ≡ flows_of reports)
    × (sum_of (compute_stats (λ t. t) ranks reports).severity_counts ≡ incidents_of reports)
    × (length (compute_stats (λ t. t) ranks reports).recent_incidents
        ≡ min 50 (incidents_of reports))
compute_stats-sums_example = compute_stats-sums (λ t. t) ranks reports
