-- ===== src/Observe/Alerts.antt =====
-- `_fire_alerts`: which problems are sent, and when the same problem may be sent again.
pub mod Spacing
use jim_tf.Base.{
  ℕ, ◌+◌, ◌*◌, String, Bool, true, false, List, [], ◌∷◌, ◌++◌, Dict, lookup, insert, get_or, keep,
  ltb, string_key, if◌then◌else◌, not,
}
use jim_tf.Observe.{Problem, is_serious, alert_key}

-- `_alert_cooldowns`, and the lists that were handed to the notification
-- service, each with its time.
pub record Alerting : Type 0 where
  pub cooldowns : Dict String ℕ
  pub attempts : List (ℕ × List Problem)

abbrev pub alert_cooldown : ℕ → ℕ
alert_cooldown second = 300 * second

module _ (second : ℕ) where
  -- One round of `for p in critical`: `now - last > ALERT_COOLDOWN_SECONDS`.
  unfoldable pub is_due : ℕ → Problem → Dict String ℕ → Bool
  is_due now p cooldowns =
      ltb (get_or (lookup (alert_key p) cooldowns) 0 + alert_cooldown second) now

  -- The loop: the problems to alert, and the cooldowns after it.
  unfoldable pub to_alert : ℕ → List Problem → Dict String ℕ → List Problem
  unfolding is_due
  to_alert now [] cooldowns = []
  to_alert now (p ∷ ps) cooldowns = elim (is_due now p cooldowns) [
    | true ↦ p ∷ to_alert now ps (insert (alert_key p) now cooldowns)
    | false ↦ to_alert now ps cooldowns
  ]

  unfoldable pub cooldowns_after : ℕ → List Problem → Dict String ℕ → Dict String ℕ
  unfolding is_due
  cooldowns_after now [] cooldowns = cooldowns
  cooldowns_after now (p ∷ ps) cooldowns = elim (is_due now p cooldowns) [
    | true ↦ cooldowns_after now ps (insert (alert_key p) now cooldowns)
    | false ↦ cooldowns_after now ps cooldowns
  ]

  -- `enabled` says that there is a client and a topic. An exception of `publish` is logged only.
  unfoldable pub fire_alerts : Bool → ℕ → List Problem → Alerting → Alerting
  unfolding to_alert cooldowns_after
  fire_alerts enabled now all_problems s =
      if not enabled
      then s
      else let critical = keep (λ p. is_serious p.severity) all_problems in
        let alerts = to_alert now critical s.cooldowns in
        let cooldowns = cooldowns_after now critical s.cooldowns in
        elim alerts [
          | [] ↦ record s { cooldowns = cooldowns }
          | p ∷ ps ↦ record { cooldowns = cooldowns; attempts = s.attempts ++ (now, p ∷ ps) ∷ [] }
        ]

  -- The polls of `_background_poller`, each with its time and its problems.
  unfoldable pub watch : Bool → List (ℕ × List Problem) → Alerting → Alerting
  unfolding fire_alerts
  watch enabled [] s = s
  watch enabled ((now, problems) ∷ polls) s =
      watch enabled polls (fire_alerts enabled now problems s)
