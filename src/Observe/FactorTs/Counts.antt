-- ===== src/Observe/FactorTs/Counts.antt =====
-- The counts of `check_factor_ts` agree with each other, also after an exception.
use jim_tf.Base.{
  ℕ, ◌+◌, ◌≡◌, refl, String, Option, none, some, List, [], ◌∷◌, ◌++◌, length, length-append,
  contains, string_key, Bool-cases, inl, inr, arith,
}
use jim_tf.Observe.{Reply, raises, returns}
use jim_tf.Observe.FactorTs.{
  Pod, Deployment, PodInfo, TsReport, good_phases, no_labels, pod_step, cut_step, pod_loop,
  after_pods, deployment_step, deployment_loop, cron_loop, no_access, empty_report, check_factor_ts,
}

-- Whether a pod is among the listed ones whose labels are `None`: 1 if one is, and 0 if none is.
abbrev pub unlabelled : List Pod → ℕ
unlabelled [] = 0
unlabelled (pod ∷ pods) = elim pod.app [ none ↦ 1 | some app ↦ unlabelled pods ]

abbrev pub unlabelled_in : Reply (List Pod) → ℕ
unlabelled_in (raises exc) = 0
unlabelled_in (returns pods) = unlabelled pods

-- Every pod of the total is shown and counted as running or as failed, but the one at which the loop was
-- cut short, and every deployment is counted once.
pub record IsCounted (cut : ℕ) (r : TsReport) : Type 0 where
  pub pods : r.summary.pods_running + r.summary.pods_failed + cut ≡ r.summary.pods_total
  pub shown : length r.pods ≡ r.summary.pods_running + r.summary.pods_failed
  pub deployments :
      r.summary.deployments_healthy + r.summary.deployments_unhealthy ≡ r.summary.deployments_total

one_more : (xs : List PodInfo) (x : PodInfo) {n : ℕ} → length xs ≡ n → length (xs ++ x ∷ []) ≡ n + 1
one_more xs x h = omega (arith, h, length-append xs (x ∷ []))

pod_step-IsCounted :
    (pod : Pod) (app : String) (r : TsReport) → IsCounted 0 r → IsCounted 0 (pod_step pod app r)
unfolding pod_step
pod_step-IsCounted pod app r h = elim (Bool-cases (contains good_phases pod.phase)) [
  | inl good ↦ record {
    pods = ground (arith, h.pods);
    shown = rw good (omega (arith, one_more r.pods _ h.shown));
    deployments = ground (arith, h.deployments);
  }
  | inr bad ↦ record {
    pods = ground (arith, h.pods);
    shown = rw bad (omega (arith, one_more r.pods _ h.shown));
    deployments = ground (arith, h.deployments);
  }
]

cut_step-IsCounted : (pod : Pod) (r : TsReport) → IsCounted 0 r → IsCounted 1 (cut_step pod r)
unfolding cut_step
cut_step-IsCounted pod r h = record {
  pods = omega (arith, h.pods);
  shown = h.shown;
  deployments = h.deployments;
}

pod_loop-IsCounted :
    (pods : List Pod) (r : TsReport)
    → IsCounted 0 r
    → IsCounted (unlabelled pods) (pod_loop pods r).0
unfolding pod_loop
pod_loop-IsCounted [] r h = h
pod_loop-IsCounted (pod ∷ pods) r h = by_app pod.app (λ r' h'. pod_loop-IsCounted pods r' h')
  where
    by_app :
        (app : Option String)
        → ((r' : TsReport) → IsCounted 0 r' → IsCounted (unlabelled pods) (pod_loop pods r').0)
        → IsCounted
            (elim app [ none ↦ 1 | some a ↦ unlabelled pods ])
            (elim app as (λ a. TsReport × Option String) [
              | none ↦ (cut_step pod r, some no_labels)
              | some a ↦ pod_loop pods (pod_step pod a r)
            ]).0
    by_app none ih = cut_step-IsCounted pod r h
    by_app (some a) ih = ih (pod_step pod a r) (pod_step-IsCounted pod a r h)

module _ (cut : ℕ) where
  deployment_step-IsCounted :
      (dep : Deployment) (r : TsReport) → IsCounted cut r → IsCounted cut (deployment_step dep r)
  unfolding deployment_step
  deployment_step-IsCounted dep r h = record {
    pods = ground (arith, h.pods);
    shown = ground (arith, h.shown);
    deployments = ground (arith, h.deployments);
  }

  deployment_loop-IsCounted :
      (deps : List Deployment) (r : TsReport)
      → IsCounted cut r
      → IsCounted cut (deployment_loop deps r)
  unfolding deployment_loop
  deployment_loop-IsCounted [] r h = h
  deployment_loop-IsCounted (dep ∷ deps) r h =
      deployment_loop-IsCounted deps (deployment_step dep r) (deployment_step-IsCounted dep r h)

  cron_loop-IsCounted :
      (crons : List ℕ) (r : TsReport) → IsCounted cut r → IsCounted cut (cron_loop crons r)
  unfolding cron_loop
  cron_loop-IsCounted [] r h = h
  cron_loop-IsCounted (active ∷ crons) r h =
      cron_loop-IsCounted crons _
        (record { pods = h.pods; shown = h.shown; deployments = h.deployments })

  no_access-IsCounted :
      (exc : String) (r : TsReport) → IsCounted cut r → IsCounted cut (no_access exc r)
  unfolding no_access
  no_access-IsCounted exc r h = record {
    pods = h.pods;
    shown = h.shown;
    deployments = h.deployments;
  }

  after_pods-IsCounted :
      (deps : Reply (List Deployment)) (crons : Reply (List ℕ)) (r : TsReport)
      → IsCounted cut r
      → IsCounted cut (after_pods deps crons r)
  unfolding after_pods
  after_pods-IsCounted (raises exc) crons r h = no_access-IsCounted exc r h
  after_pods-IsCounted (returns deps) (raises exc) r h =
      no_access-IsCounted exc _ (deployment_loop-IsCounted deps r h)
  after_pods-IsCounted (returns deps) (returns crons) r h =
      cron_loop-IsCounted crons _ (deployment_loop-IsCounted deps r h)

empty_report-IsCounted : IsCounted 0 empty_report
empty_report-IsCounted = record { pods = refl; shown = refl; deployments = refl }

-- Whichever of the three listings raises, the running and the other pods add up to the number of pods
-- shown, and to the total but for one if a listed pod has no labels, at which the loop is cut short;
-- and the healthy and unhealthy deployments add up to their total.
pub check_factor_ts-IsCounted :
    (pods : Reply (List Pod)) (deps : Reply (List Deployment)) (crons : Reply (List ℕ))
    → IsCounted (unlabelled_in pods) (check_factor_ts pods deps crons)
unfolding check_factor_ts
check_factor_ts-IsCounted (raises exc) deps crons =
    no_access-IsCounted 0 exc empty_report empty_report-IsCounted
check_factor_ts-IsCounted (returns pods) deps crons =
    by_loop (pod_loop pods empty_report)
      (pod_loop-IsCounted pods empty_report empty_report-IsCounted)
  where
    by_loop :
        (looped : TsReport × Option String)
        → IsCounted (unlabelled pods) looped.0
        → IsCounted (unlabelled pods) (elim looped.1 as (λ o. TsReport) [
          | none ↦ after_pods deps crons looped.0
          | some exc ↦ no_access exc looped.0
        ])
    by_loop (r, none) h = after_pods-IsCounted (unlabelled pods) deps crons r h
    by_loop (r, some exc) h = no_access-IsCounted (unlabelled pods) exc r h
