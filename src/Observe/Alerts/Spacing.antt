-- ===== src/Observe/Alerts/Spacing.antt =====
-- How far apart the alerts for one key are, over any sequence of polls.
use jim_tf.Base.{
  append_assoc, append-nil, ap, sym, ◌∙◌, ℕ, ◌+◌, ◌≤◌, ◌<◌, ◌≡◌, inl, inr, refl, String, Bool, true,
  false, List, [], ◌∷◌, ◌++◌, Dict, lookup, insert, lookup-insert, keep, string_key, All,
  All-append, some, arith, Bool-cases, eq_refl, ◌==◌, map,
}
use text.Mathlib.TextEquality.{eq_iff}
use jim_tf.Observe.{Problem, is_serious, alert_key}
use jim_tf.Observe.Alerts.{
  Alerting, alert_cooldown, is_due, to_alert, cooldowns_after, fire_alerts, watch,
}

-- A sent alert: its key and its time.
abbrev pub Sent : Type 0
Sent = String × ℕ

module _ (second : ℕ) where
  -- The alerts of a sequence of polls, each with its time and its problems, oldest first.
  abbrev pub alerts_of : List (ℕ × List Problem) → Dict String ℕ → List Sent
  alerts_of [] cooldowns = []
  alerts_of ((now, problems) ∷ polls) cooldowns =
      let serious = keep (λ p. is_serious p.severity) problems in
      map (λ p. (alert_key p, now)) (to_alert second now serious cooldowns)
      ++ alerts_of polls (cooldowns_after second now serious cooldowns)

  -- Every later alert for the key `k` comes more than the cooldown after `t`.
  abbrev pub After : String → ℕ → List Sent → Type 0
  After k t sent = All (λ a. (a.0 ≡ k) → t + alert_cooldown second < a.1) sent

  abbrev pub Spaced : List Sent → Type 0
  Spaced [] = Unit
  Spaced ((k, t) ∷ sent) = After k t sent × Spaced sent

  -- The last alert for `k` is at `t` or later.
  abbrev Recorded : String → ℕ → Dict String ℕ → Type 0
  Recorded k t cooldowns = (u : ℕ) × (lookup k cooldowns ≡ some u) × (t ≤ u)

  -- The alert for `j` is due, so its last one was earlier.
  Recorded-insert :
      (k : String) (t now : ℕ) (p : Problem) (d : Dict String ℕ)
      → is_due second now p d ≡ true
      → Recorded k t d
      → Recorded k t (insert (alert_key p) now d)
  unfolding is_due
  Recorded-insert k t now p d due (u, e, l) = elim (Bool-cases (alert_key p == k)) [
    | inl same ↦
        let f : alert_key p ≡ k = (eq_iff (alert_key p) k).0 same in
        let g : lookup (alert_key p) d ≡ some u = rw f e in
        (now, (ground (arith, lookup-insert (alert_key p) k now d)), (ground (arith, g)))
    | inr other ↦ (u, (ground (arith, lookup-insert (alert_key p) k now d)), l)
  ]

  takes :
      (now : ℕ) (p : Problem) (ps : List Problem) (d : Dict String ℕ)
      → is_due second now p d ≡ true
      → (to_alert second now (p ∷ ps) d ≡ p ∷ to_alert second now ps (insert (alert_key p) now d))
        × (cooldowns_after second now (p ∷ ps) d
            ≡ cooldowns_after second now ps (insert (alert_key p) now d))
  takes now p ps d e =
      ((unfold to_alert in rw (e, to_alert)), (unfold cooldowns_after in rw (e, cooldowns_after)))

  skips :
      (now : ℕ) (p : Problem) (ps : List Problem) (d : Dict String ℕ)
      → is_due second now p d ≡ false
      → (to_alert second now (p ∷ ps) d ≡ to_alert second now ps d)
        × (cooldowns_after second now (p ∷ ps) d ≡ cooldowns_after second now ps d)
  skips now p ps d e =
      ((unfold to_alert in rw (e, to_alert)), (unfold cooldowns_after in rw (e, cooldowns_after)))

  abbrev sent_at : ℕ → List Problem → List Sent
  sent_at now ps = map (λ p. (alert_key p, now)) ps

  -- A recorded alert is far enough before what the rest of a round sends, and stays recorded.
  round_After :
      (k : String) (t now : ℕ) (ps : List Problem) (d : Dict String ℕ)
      → Recorded k t d
      → After k t (sent_at now (to_alert second now ps d))
        × Recorded k t (cooldowns_after second now ps d)
  unfolding to_alert cooldowns_after
  round_After k t now [] d r = (tt, r)
  round_After k t now (p ∷ ps) d r = elim (Bool-cases (is_due second now p d)) [
    | inl due ↦
        let e = takes now p ps d due in
        let ih =
          round_After k t now ps (insert (alert_key p) now d) (Recorded-insert k t now p d due r) in
        rw (e.0, e.1) ((far due r, ih.0), ih.1)
    | inr early ↦ let e = skips now p ps d early in rw (e.0, e.1) (round_After k t now ps d r)
  ]
    where
      far :
          is_due second now p d ≡ true
          → Recorded k t d
          → alert_key p ≡ k
          → t + alert_cooldown second < now
      far due (u, e, l) f =
          let g : lookup (alert_key p) d ≡ some u = rw f e in unfold is_due in ground (arith, g)

  later_After :
      (k : String) (t : ℕ) (polls : List (ℕ × List Problem)) (d : Dict String ℕ)
      → Recorded k t d
      → After k t (alerts_of polls d)
  later_After k t [] d r = tt
  later_After k t ((now, problems) ∷ polls) d r =
      let serious : List Problem = keep (λ p. is_serious p.severity) problems in
      let h = round_After k t now serious d r in
      All-append (λ a. (a.0 ≡ k) → t + alert_cooldown second < a.1)
        (sent_at now (to_alert second now serious d))
        (alerts_of polls (cooldowns_after second now serious d)) h.0
        (later_After k t polls (cooldowns_after second now serious d) h.1)

  just_Recorded :
      (now : ℕ) (p : Problem) (d : Dict String ℕ)
      → Recorded (alert_key p) now (insert (alert_key p) now d)
  just_Recorded now p d = (
    now,
    (rw (lookup-insert (alert_key p) (alert_key p) now d, eq_refl (alert_key p))),
    omega arith,
  )

  -- What one round sends, followed by spaced alerts that are far enough from those recorded.
  round_Spaced :
      (now : ℕ) (ps : List Problem) (d : Dict String ℕ) (rest : List Sent)
      → Spaced rest
      → ((k : String) (t : ℕ) → Recorded k t (cooldowns_after second now ps d) → After k t rest)
      → Spaced (sent_at now (to_alert second now ps d) ++ rest)
  unfolding to_alert
  round_Spaced now [] d rest sp far = sp
  round_Spaced now (p ∷ ps) d rest sp far = elim (Bool-cases (is_due second now p d)) [
    | inl due ↦
        let e = takes now p ps d due in
        let d' : Dict String ℕ = insert (alert_key p) now d in
        let r = round_After (alert_key p) now now ps d' (just_Recorded now p d) in
        rw e.0 (
          All-append (λ a. (a.0 ≡ alert_key p) → now + alert_cooldown second < a.1)
              (sent_at now (to_alert second now ps d')) rest r.0
              (far (alert_key p) now (rw e.1 r.1)),
          round_Spaced now ps d' rest sp (λ k t h. far k t (rw e.1 h)),
        )
    | inr early ↦
        let e = skips now p ps d early in
        rw e.0 (round_Spaced now ps d rest sp (λ k t h. far k t (rw e.1 h)))
  ]

  alerts_of-Spaced :
      (polls : List (ℕ × List Problem)) (cooldowns : Dict String ℕ)
      → Spaced (alerts_of polls cooldowns)
  alerts_of-Spaced [] d = tt
  alerts_of-Spaced ((now, problems) ∷ polls) d =
      let serious : List Problem = keep (λ p. is_serious p.severity) problems in
      round_Spaced now serious d (alerts_of polls (cooldowns_after second now serious d))
        (alerts_of-Spaced polls (cooldowns_after second now serious d))
        (λ k t r. later_After k t polls (cooldowns_after second now serious d) r)

  abbrev pub sent_of : List (ℕ × List Problem) → List Sent
  sent_of [] = []
  sent_of ((now, ps) ∷ attempts) = sent_at now ps ++ sent_of attempts

  sent_of-append : (xs ys : List (ℕ × List Problem)) → sent_of (xs ++ ys) ≡ sent_of xs ++ sent_of ys
  sent_of-append [] ys = refl
  sent_of-append ((now, ps) ∷ xs) ys =
      ap (◌++◌ (sent_at now ps)) (sent_of-append xs ys)
      ∙ sym (append_assoc (sent_at now ps) (sent_of xs) (sent_of ys))

  fire_sends :
      (now : ℕ) (problems : List Problem) (s : Alerting)
      → let serious = keep (λ p. is_serious p.severity) problems in
        (sent_of (fire_alerts second true now problems s).attempts
          ≡ sent_of s.attempts ++ sent_at now (to_alert second now serious s.cooldowns))
        × ((fire_alerts second true now problems s).cooldowns
            ≡ cooldowns_after second now serious s.cooldowns)
  fire_sends now problems s =
      by_alerts (to_alert second now (keep (λ p. is_serious p.severity) problems) s.cooldowns) refl
    where
      by_alerts :
          (alerts : List Problem)
          → to_alert second now (keep (λ p. is_serious p.severity) problems) s.cooldowns ≡ alerts
          → let serious = keep (λ p. is_serious p.severity) problems in
            (sent_of (fire_alerts second true now problems s).attempts
              ≡ sent_of s.attempts ++ sent_at now (to_alert second now serious s.cooldowns))
            × ((fire_alerts second true now problems s).cooldowns
                ≡ cooldowns_after second now serious s.cooldowns)
      by_alerts [] e = unfold fire_alerts in rw (e, append-nil (sent_of s.attempts)) (refl, refl)
      by_alerts (p ∷ ps) e =
          unfold fire_alerts in
          rw (e, sent_of-append s.attempts ((now, p ∷ ps) ∷ []), append-nil (sent_at now (p ∷ ps)))
            (refl, refl)

  watch_sends :
      (polls : List (ℕ × List Problem)) (s : Alerting)
      → sent_of (watch second true polls s).attempts
        ≡ sent_of s.attempts ++ alerts_of polls s.cooldowns
  unfolding watch
  watch_sends [] s = sym (append-nil (sent_of s.attempts))
  watch_sends ((now, problems) ∷ polls) s =
      let e = fire_sends now problems s in
      let serious : List Problem = keep (λ p. is_serious p.severity) problems in
      rw (watch_sends polls (fire_alerts second true now problems s), e.0, e.1)
        (append_assoc (sent_of s.attempts) (sent_at now (to_alert second now serious s.cooldowns))
          (alerts_of polls (cooldowns_after second now serious s.cooldowns)))

  disabled_watch : (polls : List (ℕ × List Problem)) (s : Alerting) → watch second false polls s ≡ s
  unfolding watch fire_alerts
  disabled_watch [] s = refl
  disabled_watch ((now, problems) ∷ polls) s = disabled_watch polls s

  -- Over any sequence of polls, at whatever times, and whatever cooldowns it begins with, two alerts
  -- with the same source, component and severity are more than 300 seconds apart.
  pub watch-Spaced :
      (enabled : Bool) (polls : List (ℕ × List Problem)) (cooldowns : Dict String ℕ)
      → Spaced (
          sent_of
            (watch second enabled polls (record { cooldowns = cooldowns; attempts = [] })).attempts)
  watch-Spaced true polls cooldowns =
      rw (watch_sends polls (record { cooldowns = cooldowns; attempts = [] }))
        (alerts_of-Spaced polls cooldowns)
  watch-Spaced false polls cooldowns =
      rw (disabled_watch polls (record { cooldowns = cooldowns; attempts = [] })) tt
