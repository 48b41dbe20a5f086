-- ===== src/Tests/Checks.antt =====
-- Examples for the dashboard's checks and what it collects of them.
use jim_tf.Base.{ℕ, ◌≡◌, String, Bool, false, none, some, List, [], ◌∷◌, keep, not, arith}
use jim_tf.Observe.{Problem, critical, high, medium, plain, problem, raises, returns}
use jim_tf.Observe.FactorTs.{Pod, check_factor_ts}
use jim_tf.Observe.FactorTs.Counts.{IsCounted, check_factor_ts-IsCounted}
use jim_tf.Observe.Nomad.{Job, Alloc, check_nomad}
use jim_tf.Observe.Nomad.Summaries.{Fits, check_nomad-Fits}
use jim_tf.Observe.Collect.{healthy, is_suppressed, stamp_problems, collect}
use jim_tf.Observe.Collect.Shown.{worst, IsOrdered, of_rank, collect-shown}
use jim_tf.Observe.Collect.Window.{
  within_half_hour, Round, history_after, recorded, time_after, history-IsWindow,
}

abbrev looping : Pod
looping = record {
  name = "process-1";
  phase = "Pending";
  app = none;
  containers =
      record { name = "main"; restart_count = 9; ready = false; waiting = some "CrashLoopBackOff" }
      ∷ [];
}

check_factor_ts-IsCounted_example :
    IsCounted 1 (check_factor_ts (returns (looping ∷ [])) (raises "forbidden") (returns []))
check_factor_ts-IsCounted_example =
    check_factor_ts-IsCounted (returns (looping ∷ [])) (raises "forbidden") (returns [])

abbrev dead_job : Job
dead_job = record { status = "dead"; stop = false; parent_id = ""; name = "factor" }

abbrev lost_alloc : Alloc
lost_alloc = record { client_status = "lost"; job_id = some "factor"; id = none }

check_nomad-Fits_example :
    Fits
      (check_nomad [] "addr"
        (returns 200)
        (returns (dead_job ∷ []))
        (returns (lost_alloc ∷ []))
        (raises "timeout")).summary
check_nomad-Fits_example =
    check_nomad-Fits [] "addr" (returns 200) (returns (dead_job ∷ [])) (returns (lost_alloc ∷ []))
      (raises "timeout")

abbrev found : List Problem
found =
    problem "sqs" medium "queue/work" (plain "deep")
    ∷ problem "rds" critical "rds/main" (plain "down")
    ∷ problem "nomad" high "job/factor" (plain "dead")
    ∷ []

abbrev never : String → String → Bool
never component pattern = false

collect-shown_example :
    ((collect never [] 1 10 11 found []).overall
      ≡ worst healthy (keep (λ p. not (is_suppressed never [] p)) found))
    × IsOrdered (collect never [] 1 10 11 found []).problems
    × ((n : ℕ)
        → of_rank n (collect never [] 1 10 11 found []).problems
          ≡ of_rank n (stamp_problems 10 (keep (λ p. not (is_suppressed never [] p)) found)))
collect-shown_example = collect-shown never [] 1 10 11 found []

abbrev rounds : List Round
rounds =
    record { stamped_at = 10; now = 11; found = found }
    ∷ record { stamped_at = 1900; now = 1901; found = found }
    ∷ []

history-IsWindow_example :
    history_after never [] 1 rounds []
    ≡ keep (within_half_hour 1 (time_after never [] 1 0 rounds)) (recorded never [] 1 rounds)
history-IsWindow_example = history-IsWindow never [] 1 rounds ((omega arith), ((omega arith), tt))
