-- ===== src/Tests/Alarms.antt =====
-- An example for the alerts.
use jim_tf.Base.{ℕ, [], ◌∷◌, List, none, true}
use jim_tf.Observe.{Problem, critical, status_is}
use jim_tf.Observe.Alerts.{watch}
use jim_tf.Observe.Alerts.Spacing.{Spaced, sent_of, watch-Spaced}

abbrev database_down : Problem
database_down = record {
  source = "rds";
  severity = critical;
  component = "rds/main";
  message = status_is "stopped";
  timestamp = none;
}

abbrev rounds : List (ℕ × List Problem)
rounds =
    (1000, database_down ∷ database_down ∷ [])
    ∷ (1300, database_down ∷ [])
    ∷ (1301, database_down ∷ [])
    ∷ []

watch-Spaced_example :
    Spaced 1 (sent_of 1 (watch 1 true rounds (record { cooldowns = []; attempts = [] })).attempts)
watch-Spaced_example = watch-Spaced 1 true rounds []
