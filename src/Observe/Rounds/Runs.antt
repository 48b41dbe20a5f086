-- ===== src/Observe/Rounds/Runs.antt =====
-- Any sequence of polls and pages.
use jim_tf.Base.{
  ℕ, ◌≡◌, refl, sym, ap, ◌∙◌, Option, none, some, List, [], ◌∷◌, ◌++◌, ltb, Option-cases, inl, inr,
  arith, if◌then◌else◌,
}
use mathlib.Core.Path.{subst}
use jim_tf.Observe.{Problem}
use jim_tf.Observe.Alerts.{Alerting, fire_alerts, watch}
use jim_tf.Observe.Alerts.Spacing.{Spaced, sent_of, watch-Spaced}
use jim_tf.Observe.Collect.{Overall, healthy, degraded, down, collect}
use jim_tf.Observe.Collect.Shown.{has_rank, worst, overall_from-worst}
use jim_tf.Observe.Rounds.{
  Config, Answers, Result, State, count_rank, shown, result_of, collect_all, show_page, Event, poll,
  page, refresh, handle, initial,
}

has_rank-count : (n : ℕ) (ps : List Problem) → has_rank n ps ≡ ltb 0 (count_rank n ps)
has_rank-count n [] = refl
has_rank-count n (p ∷ ps) = ground (arith, has_rank-count n ps)

-- The status that the counts of a result stand for.
abbrev status_of : Result → Overall
status_of r =
    if ltb 0 r.critical_count then down else if ltb 0 r.high_count then degraded else healthy

-- What is cached, if anything is, has a status that agrees with its counts.
abbrev pub CacheAgrees : Option Result → Type 0
CacheAgrees none = Unit
CacheAgrees (some r) = r.overall ≡ status_of r

module _ (config : Config) where
  result-status :
      (a : Answers) (s : State) → (result_of config a s).overall ≡ status_of (result_of config a s)
  unfolding result_of shown collect
  result-status a s =
      let ps = (shown config a s).problems in
      overall_from-worst healthy ps ∙ by_counts ps (has_rank-count 0 ps) (has_rank-count 1 ps)
    where
      by_counts :
          (ps : List Problem)
          → has_rank 0 ps ≡ ltb 0 (count_rank 0 ps)
          → has_rank 1 ps ≡ ltb 0 (count_rank 1 ps)
          → worst healthy ps ≡ (
              if ltb 0 (count_rank 0 ps)
              then down
              else if ltb 0 (count_rank 1 ps)
              then degraded
              else healthy)
      by_counts ps e f = rw (e, f)

  abbrev pub run : List Event → State → State
  run [] s = s
  run (e ∷ es) s = run es (handle config e s).1

  -- The problems of the calls of `collect_all` that the events make, with the times of their alerts.
  abbrev pub collected : Event → State → List (ℕ × List Problem)
  collected (poll a) s = (a.alerts_at, (result_of config a s).all_problems) ∷ []
  collected (refresh a) s = (a.alerts_at, (result_of config a s).all_problems) ∷ []
  collected (page a) s = elim s.cache [
    | some r ↦ []
    | none ↦ (a.alerts_at, (result_of config a s).all_problems) ∷ []
  ]

  abbrev rounds : List Event → State → List (ℕ × List Problem)
  rounds [] s = []
  rounds (e ∷ es) s = collected e s ++ rounds es (handle config e s).1

  watch-append :
      (xs ys : List (ℕ × List Problem)) (s : Alerting)
      → watch config.second config.alerts_enabled (xs ++ ys) s
        ≡ watch config.second config.alerts_enabled ys
            (watch config.second config.alerts_enabled xs s)
  unfolding watch
  watch-append [] ys s = refl
  watch-append ((now, ps) ∷ xs) ys s =
      watch-append xs ys (fire_alerts config.second config.alerts_enabled now ps s)

  handle-watch :
      (e : Event) (s : State)
      → (handle config e s).1.alerting
        ≡ watch config.second config.alerts_enabled (collected e s) s.alerting
  unfolding handle collect_all watch
  handle-watch (poll a) s = refl
  handle-watch (refresh a) s = refl
  handle-watch (page a) s = elim (Option-cases s.cache) [
    | inl e ↦ rw (e, show_page) refl
    | inr (r, e) ↦ rw (e, show_page) refl
  ]

  run-watch :
      (es : List Event) (s : State)
      → (run es s).alerting ≡ watch config.second config.alerts_enabled (rounds es s) s.alerting
  run-watch [] s = (unfold watch in refl)
  run-watch (e ∷ es) s =
      run-watch es (handle config e s).1
      ∙ ap (watch config.second config.alerts_enabled (rounds es (handle config e s).1))
          (handle-watch e s)
      ∙ sym (watch-append (collected e s) (rounds es (handle config e s).1) s.alerting)

  collect_all-Agrees : (a : Answers) (s : State) → CacheAgrees (collect_all config a s).1.cache
  unfolding collect_all
  collect_all-Agrees a s = result-status a s

  handle-Agrees :
      (e : Event) (s : State) → CacheAgrees s.cache → CacheAgrees (handle config e s).1.cache
  unfolding handle
  handle-Agrees (poll a) s h = collect_all-Agrees a s
  handle-Agrees (refresh a) s h = collect_all-Agrees a s
  handle-Agrees (page a) s h = elim (Option-cases s.cache) [
    | inl e ↦ subst (λ (u : State). CacheAgrees u.cache) (sym (page_new e)) (collect_all-Agrees a s)
    | inr (r, e) ↦ subst (λ (u : State). CacheAgrees u.cache) (sym (page_old r e)) h
  ]
    where
      page_new : s.cache ≡ none → (show_page config a s).1 ≡ (collect_all config a s).1
      page_new e = unfold show_page in ground (arith, e)

      page_old : (r : Result) → s.cache ≡ some r → (show_page config a s).1 ≡ s
      page_old r e = unfold show_page in ground (arith, e)

  run-Agrees : (es : List Event) (s : State) → CacheAgrees s.cache → CacheAgrees (run es s).cache
  run-Agrees [] s h = h
  run-Agrees (e ∷ es) s h = run-Agrees es (handle config e s).1 (handle-Agrees e s h)

  -- After any sequence of polls, pages and refreshes, whatever the services answer: two alerts with
  -- the same source, component and severity are more than 300 seconds apart, and the result that the
  -- next page shows, if there is one, has a status that agrees with its counts: critical if there is
  -- a critical problem, else degraded if there is one of high severity, else healthy.
  pub run-IsSound :
      (es : List Event)
      → Spaced config.second (sent_of config.second (run es initial).alerting.attempts)
        × CacheAgrees (run es initial).cache
  run-IsSound es = (
    subst (λ (w : Alerting). Spaced config.second (sent_of config.second w.attempts))
        (sym (run-watch es initial))
        (watch-Spaced config.second config.alerts_enabled (rounds es initial) []),
    run-Agrees es initial tt,
  )
