-- ===== src/Observe/Nomad.antt =====
-- `check_nomad`: the jobs, allocations and blocked evaluations of a Nomad cluster.
pub mod Summaries
use jim_tf.Base.{
  ℕ, ◌+◌, String, Option, none, some, Bool, true, false, not, ◌||◌, ◌&&◌, List, [], ◌∷◌, ◌++◌,
  get_or, contains, nat_eq, string_key, ◌==◌, if◌then◌else◌,
}
use Prim.Native.String.{◌++◌ as ◌then◌}
use text.Mathlib.Text.{find?, get?}
use jim_tf.Observe.{
  Severity, critical, high, medium, low, Text, unable, plain, http_status, Problem, problem, Reply,
  raises, returns,
}
use jim_tf.Observe.Services.{cut}

-- The keys that are read of a job; "" and false stand for missing ones, as in the source.
pub record Job : Type 0 where
  pub status : String
  pub stop : Bool
  pub parent_id : String
  pub name : String

-- `id` may be missing, and then `alloc['ID']` raises. So it is with an evaluation.
pub record Alloc : Type 0 where
  pub client_status : String
  pub job_id : Option String
  pub id : Option String

pub record Evaluation : Type 0 where
  pub job_id : Option String
  pub id : Option String
  pub status_description : String

pub record NomadSummary : Type 0 where
  pub jobs_total : ℕ
  pub jobs_running : ℕ
  pub jobs_dead : ℕ
  pub allocs_total : ℕ
  pub allocs_running : ℕ
  pub allocs_failed : ℕ
  pub reachable : Bool

pub record NomadReport : Type 0 where
  pub summary : NomadSummary
  pub problems : List Problem

-- `name.split("/periodic-")[0] if "/periodic-" in name else name`
unfoldable pub parent_name : String → String
parent_name name = elim (find? name "/periodic-") [
  | none ↦ name
  | some i ↦ get_or (get? name 0 i) name
]

unfoldable pub is_ignored : List String → String → Bool
unfolding parent_name
is_ignored ignored name = contains ignored (parent_name name) || contains ignored name

unfoldable pub dead_problems : List String → Job → List Problem
unfolding is_ignored
dead_problems ignored job =
    if not job.stop && job.parent_id == "" && not (is_ignored ignored job.name)
    then problem "nomad" high ("job/" then job.name)
        (plain "Job is dead (not stopped intentionally)")
      ∷ []
    else []

-- One round of `for job in jobs`.
unfoldable pub job_step : List String → Job → NomadReport → NomadReport
unfolding dead_problems
job_step ignored job r =
    let total = r.summary.jobs_total + 1 in
    if job.status == "running"
    then record r {
      summary = record r.summary { jobs_total = total; jobs_running = r.summary.jobs_running + 1 };
    }
    else if job.status == "dead"
    then record {
      summary = record r.summary { jobs_total = total; jobs_dead = r.summary.jobs_dead + 1 };
      problems = r.problems ++ dead_problems ignored job;
    }
    else record r { summary = record r.summary { jobs_total = total } }

unfoldable pub job_loop : List String → List Job → NomadReport → NomadReport
unfolding job_step
job_loop ignored [] r = r
job_loop ignored (job ∷ jobs) r = job_loop ignored jobs (job_step ignored job r)

-- How a part of the `try` block ends: with the report so far, or with an exception.
pub data Checking : Type 0 where
  goes_on : NomadReport → Checking
  excepts : String → NomadReport → Checking

abbrev pub bad_states : List String
bad_states = "failed" ∷ "lost" ∷ []

unfoldable pub alloc_problem : String → String → String → Problem
alloc_problem client_status job_id id =
    problem "nomad" (if client_status == "failed" then high else medium)
      ("alloc/" then (job_id then ("/" then cut 8 id))) (plain client_status)

-- The branch of a failed or lost allocation, after its count.
unfoldable pub failed_alloc : List String → Alloc → NomadReport → Checking
unfolding is_ignored alloc_problem
failed_alloc ignored alloc r =
    let job = get_or alloc.job_id "?" in
    if is_ignored ignored job then goes_on r else elim alloc.id [
      | none ↦ excepts "ID" r
      | some id ↦
          goes_on
            (record r { problems = r.problems ++ alloc_problem alloc.client_status job id ∷ [] })
    ]

-- One round of `for alloc in allocs`.
unfoldable pub alloc_step : List String → Alloc → NomadReport → Checking
unfolding failed_alloc
alloc_step ignored alloc r =
    let total = r.summary.allocs_total + 1 in
    if alloc.client_status == "running"
    then goes_on (record r {
      summary = record r.summary {
        allocs_total = total;
        allocs_running = r.summary.allocs_running + 1;
      };
    })
    else if contains bad_states alloc.client_status
    then failed_alloc ignored alloc (record r {
      summary = record r.summary {
        allocs_total = total;
        allocs_failed = r.summary.allocs_failed + 1;
      };
    })
    else goes_on (record r { summary = record r.summary { allocs_total = total } })

unfoldable pub alloc_loop : List String → List Alloc → NomadReport → Checking
unfolding alloc_step
alloc_loop ignored [] r = goes_on r
alloc_loop ignored (alloc ∷ allocs) r = elim (alloc_step ignored alloc r) [
  | goes_on r' ↦ alloc_loop ignored allocs r'
  | excepts exc r' ↦ excepts exc r'
]

-- `for ev in (evals or [])`
unfoldable pub evaluation_loop : List Evaluation → NomadReport → Checking
evaluation_loop [] r = goes_on r
evaluation_loop (ev ∷ evals) r = elim ev.id [
  | none ↦ excepts "ID" r
  | some id ↦ evaluation_loop evals (record r {
    problems =
        r.problems
        ++ problem "nomad" medium ("eval/" then (get_or ev.job_id "?" then ("/" then cut 8 id)))
            (plain ev.status_description)
          ∷ [];
  })
]

unfoldable pub finish : Checking → NomadReport
finish (goes_on r) = r
finish (excepts exc r) = record r {
  problems = r.problems ++ problem "nomad" critical "api" (unable exc) ∷ [];
}

unfoldable pub check_evaluations : Reply (List Evaluation) → NomadReport → Checking
unfolding evaluation_loop
check_evaluations (raises exc) r = excepts exc r
check_evaluations (returns evals) r = evaluation_loop evals r

unfoldable pub check_allocations :
    List String → Reply (List Alloc) → Reply (List Evaluation) → NomadReport → Checking
unfolding alloc_loop check_evaluations
check_allocations ignored (raises exc) evals r = excepts exc r
check_allocations ignored (returns allocs) evals r = elim (alloc_loop ignored allocs r) [
  | goes_on r' ↦ check_evaluations evals r'
  | excepts exc r' ↦ excepts exc r'
]

unfoldable pub check_jobs :
    List String
    → Reply (List Job)
    → Reply (List Alloc)
    → Reply (List Evaluation)
    → NomadReport
    → Checking
unfolding job_loop check_allocations
check_jobs ignored (raises exc) allocs evals r = excepts exc r
check_jobs ignored (returns jobs) allocs evals r =
    check_allocations ignored allocs evals (job_loop ignored jobs r)

abbrev pub no_report : NomadReport
no_report = record {
  summary = record {
    jobs_total = 0;
    jobs_running = 0;
    jobs_dead = 0;
    allocs_total = 0;
    allocs_running = 0;
    allocs_failed = 0;
    reachable = false;
  };
  problems = [];
}

-- The `try` block, of the status code of the agent's health and the three listings.
unfoldable pub check_agent :
    List String
    → Reply ℕ
    → Reply (List Job)
    → Reply (List Alloc)
    → Reply (List Evaluation)
    → NomadReport
unfolding finish check_jobs
check_agent ignored (raises exc) jobs allocs evals = finish (excepts exc no_report)
check_agent ignored (returns status_code) jobs allocs evals =
    if nat_eq status_code 200
    then finish (
        check_jobs ignored jobs allocs evals
          (record no_report { summary = record no_report.summary { reachable = true } }))
    else record no_report {
      problems = problem "nomad" critical "agent" (http_status status_code) ∷ [];
    }

unfoldable pub check_nomad :
    List String
    → String
    → Reply ℕ
    → Reply (List Job)
    → Reply (List Alloc)
    → Reply (List Evaluation)
    → NomadReport
unfolding check_agent
check_nomad ignored nomad_addr health jobs allocs evals =
    if nomad_addr == ""
    then record no_report {
      problems = problem "nomad" low "config" (plain "NOMAD_ADDR not configured") ∷ [];
    }
    else check_agent ignored health jobs allocs evals
