-- ===== src/Observe/Nomad/Summaries.antt =====
-- The counts of `check_nomad`, also after an exception.
use jim_tf.Base.{
  ℕ, ◌+◌, ◌≤◌, String, List, [], ◌∷◌, arith, Option-cases, Bool-cases, inl, inr, contains,
  string_key, ◌==◌, nat_eq,
}
use jim_tf.Observe.{Reply, raises, returns}
use jim_tf.Observe.Nomad.{
  Job, Alloc, Evaluation, NomadSummary, NomadReport, Checking, goes_on, excepts, bad_states,
  job_step, job_loop, failed_alloc, alloc_step, alloc_loop, evaluation_loop, finish,
  check_evaluations, check_allocations, check_jobs, no_report, check_agent, check_nomad,
}

-- The jobs and allocations counted by state are some of those counted.
abbrev pub Fits : NomadSummary → Type 0
Fits s =
    (s.jobs_running + s.jobs_dead ≤ s.jobs_total)
    × (s.allocs_running + s.allocs_failed ≤ s.allocs_total)

abbrev FitsChecking : Checking → Type 0
FitsChecking (goes_on r) = Fits r.summary
FitsChecking (excepts exc r) = Fits r.summary

job_step-Fits :
    (ignored : List String) (job : Job) (r : NomadReport)
    → Fits r.summary
    → Fits (job_step ignored job r).summary
unfolding job_step
job_step-Fits ignored job r h = ground (arith, h.0, h.1)

job_loop-Fits :
    (ignored : List String) (jobs : List Job) (r : NomadReport)
    → Fits r.summary
    → Fits (job_loop ignored jobs r).summary
unfolding job_loop
job_loop-Fits ignored [] r h = h
job_loop-Fits ignored (job ∷ jobs) r h =
    job_loop-Fits ignored jobs (job_step ignored job r) (job_step-Fits ignored job r h)

failed_alloc-Fits :
    (ignored : List String) (alloc : Alloc) (r : NomadReport)
    → Fits r.summary
    → FitsChecking (failed_alloc ignored alloc r)
unfolding failed_alloc
failed_alloc-Fits ignored alloc r h = ground (arith, h.0, h.1)

alloc_step-Fits :
    (ignored : List String) (alloc : Alloc) (r : NomadReport)
    → Fits r.summary
    → FitsChecking (alloc_step ignored alloc r)
unfolding alloc_step
alloc_step-Fits ignored alloc r h = elim (Bool-cases (alloc.client_status == "running")) [
  | inl runs ↦ rw runs (h.0, (omega (arith, h.1)))
  | inr other ↦ elim (Bool-cases (contains bad_states alloc.client_status)) [
    | inl bad ↦ rw (other, bad) (failed_alloc-Fits ignored alloc _ (h.0, (omega (arith, h.1))))
    | inr good ↦ rw (other, good) (h.0, (omega (arith, h.1)))
  ]
]

alloc_loop-Fits :
    (ignored : List String) (allocs : List Alloc) (r : NomadReport)
    → Fits r.summary
    → FitsChecking (alloc_loop ignored allocs r)
unfolding alloc_loop
alloc_loop-Fits ignored [] r h = h
alloc_loop-Fits ignored (alloc ∷ allocs) r h =
    by_step (alloc_step ignored alloc r) (alloc_step-Fits ignored alloc r h)
      (λ r' h'. alloc_loop-Fits ignored allocs r' h')
  where
    by_step :
        (k : Checking)
        → FitsChecking k
        → ((r' : NomadReport) → Fits r'.summary → FitsChecking (alloc_loop ignored allocs r'))
        → FitsChecking
            (elim k [ goes_on r' ↦ alloc_loop ignored allocs r' | excepts exc r' ↦ excepts exc r' ])
    by_step (goes_on r') t ih = ih r' t
    by_step (excepts exc r') t ih = t

evaluation_loop-Fits :
    (evals : List Evaluation) (r : NomadReport)
    → Fits r.summary
    → FitsChecking (evaluation_loop evals r)
unfolding evaluation_loop
evaluation_loop-Fits [] r h = h
evaluation_loop-Fits (ev ∷ evals) r h = elim (Option-cases ev.id) [
  | inl e ↦ rw e h
  | inr (id, e) ↦ rw e (evaluation_loop-Fits evals _ h)
]

check_evaluations-Fits :
    (evals : Reply (List Evaluation)) (r : NomadReport)
    → Fits r.summary
    → FitsChecking (check_evaluations evals r)
unfolding check_evaluations
check_evaluations-Fits (raises exc) r h = h
check_evaluations-Fits (returns evals) r h = evaluation_loop-Fits evals r h

check_allocations-Fits :
    (ignored : List String) (allocs : Reply (List Alloc)) (evals : Reply (List Evaluation))
    (r : NomadReport)
    → Fits r.summary
    → FitsChecking (check_allocations ignored allocs evals r)
unfolding check_allocations
check_allocations-Fits ignored (raises exc) evals r h = h
check_allocations-Fits ignored (returns allocs) evals r h =
    by_loop (alloc_loop ignored allocs r) (alloc_loop-Fits ignored allocs r h)
  where
    by_loop :
        (k : Checking)
        → FitsChecking k
        → FitsChecking
            (elim k [ goes_on r' ↦ check_evaluations evals r' | excepts exc r' ↦ excepts exc r' ])
    by_loop (goes_on r') t = check_evaluations-Fits evals r' t
    by_loop (excepts exc r') t = t

finish-Fits : (k : Checking) → FitsChecking k → Fits (finish k).summary
unfolding finish
finish-Fits (goes_on r) h = h
finish-Fits (excepts exc r) h = h

check_jobs-Fits :
    (ignored : List String) (jobs : Reply (List Job)) (allocs : Reply (List Alloc))
    (evals : Reply (List Evaluation)) (r : NomadReport)
    → Fits r.summary
    → FitsChecking (check_jobs ignored jobs allocs evals r)
unfolding check_jobs
check_jobs-Fits ignored (raises exc) allocs evals r h = h
check_jobs-Fits ignored (returns jobs) allocs evals r h =
    check_allocations-Fits ignored allocs evals (job_loop ignored jobs r)
      (job_loop-Fits ignored jobs r h)

check_agent-Fits :
    (ignored : List String) (health : Reply ℕ) (jobs : Reply (List Job))
    (allocs : Reply (List Alloc)) (evals : Reply (List Evaluation))
    → Fits (check_agent ignored health jobs allocs evals).summary
unfolding check_agent
check_agent-Fits ignored (raises exc) jobs allocs evals =
    finish-Fits (excepts exc no_report) ((omega arith), (omega arith))
check_agent-Fits ignored (returns status_code) jobs allocs evals =
    elim (Bool-cases (nat_eq status_code 200)) [
      | inl e ↦ rw e (
          finish-Fits _
            (check_jobs-Fits ignored jobs allocs evals _ ((omega arith), (omega arith))))
      | inr e ↦ rw e ((omega arith), (omega arith))
    ]

-- Whatever the cluster answers, and wherever an exception ends the check, the running and the dead
-- jobs are at most all jobs counted, and the running and the failed allocations at most all counted.
pub check_nomad-Fits :
    (ignored : List String) (nomad_addr : String) (health : Reply ℕ) (jobs : Reply (List Job))
    (allocs : Reply (List Alloc)) (evals : Reply (List Evaluation))
    → Fits (check_nomad ignored nomad_addr health jobs allocs evals).summary
unfolding check_nomad
check_nomad-Fits ignored nomad_addr health jobs allocs evals =
    elim (Bool-cases (nomad_addr == "")) [
      | inl e ↦ rw e ((omega arith), (omega arith))
      | inr e ↦ rw e (check_agent-Fits ignored health jobs allocs evals)
    ]
