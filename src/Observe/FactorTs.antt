-- ===== src/Observe/FactorTs.antt =====
-- `check_factor_ts`: the pods, deployments and jobs of one namespace.
pub mod Counts
use jim_tf.Base.{
  ℕ, ◌+◌, ◌-◌, String, Option, none, some, Bool, true, false, ◌&&◌, List, [], ◌∷◌, ◌++◌, ltb, leb,
  contains, string_key, ◌==◌, if◌then◌else◌,
}
use Prim.Native.String.{◌++◌ as ◌then◌}
use jim_tf.Observe.{
  Severity, critical, high, medium, Text, unable, plain, named, replicas, restarts, Problem,
  problem, Reply, raises, returns,
}

-- The status of a container; `waiting` is the reason if it waits, "" where it has none.
pub record Container : Type 0 where
  pub name : String
  pub restart_count : ℕ
  pub ready : Bool
  pub waiting : Option String

-- A pod; `app` is the label, "" where it has none, and `none` where the pod's labels are `None`.
pub record Pod : Type 0 where
  pub name : String
  pub phase : String
  pub app : Option String
  pub containers : List Container

pub record Deployment : Type 0 where
  pub name : String
  pub desired : ℕ
  pub available : ℕ

pub record PodInfo : Type 0 where
  pub name : String
  pub phase : String
  pub ready : Bool
  pub restarts : ℕ
  pub app : String

pub record TsSummary : Type 0 where
  pub pods_total : ℕ
  pub pods_running : ℕ
  pub pods_failed : ℕ
  pub deployments_total : ℕ
  pub deployments_healthy : ℕ
  pub deployments_unhealthy : ℕ
  pub cronjobs_total : ℕ
  pub cronjobs_active : ℕ

pub record TsReport : Type 0 where
  pub summary : TsSummary
  pub pods : List PodInfo
  pub problems : List Problem

abbrev pub bad_reasons : List String
bad_reasons = "CrashLoopBackOff" ∷ "OOMKilled" ∷ "ImagePullBackOff" ∷ "ErrImagePull" ∷ []

-- What one container adds to the problems.
unfoldable pub waiting_problems : String → Container → List Problem
waiting_problems pod cs = elim cs.waiting [
  | none ↦ []
  | some reason ↦
      if contains bad_reasons reason
      then problem "factor-ts" (if reason == "OOMKilled" then critical else high) ("pod/" then pod)
          (named cs.name reason)
        ∷ []
      else []
]

-- `for cs in pod.status.container_statuses`: the restarts, whether all are ready, and the problems.
pub record Seen : Type 0 where
  pub restart_count : ℕ
  pub container_ready : Bool
  pub problems : List Problem

unfoldable pub container_loop : String → List Container → Seen → Seen
unfolding waiting_problems
container_loop pod [] s = s
container_loop pod (cs ∷ rest) s = container_loop pod rest (record {
  restart_count = s.restart_count + cs.restart_count;
  container_ready = if cs.ready then s.container_ready else false;
  problems = s.problems ++ waiting_problems pod cs;
})

abbrev pub good_phases : List String
good_phases = "Running" ∷ "Succeeded" ∷ []

unfoldable pub phase_problems : Pod → List Problem
phase_problems pod =
    if pod.phase == "Failed"
    then problem "factor-ts" high ("pod/" then pod.name) (plain pod.phase) ∷ []
    else []

unfoldable pub restart_problems : String → ℕ → List Problem
restart_problems name restart_count =
    if ltb 5 restart_count
    then problem "factor-ts" medium ("pod/" then name) (restarts restart_count) ∷ []
    else []

-- The first part of a round of `for pod in pods.items`.
unfoldable pub see_pod : Pod → TsReport → Seen
unfolding container_loop
see_pod pod r =
    container_loop pod.name pod.containers
      (record { restart_count = 0; container_ready = true; problems = r.problems })

-- A round of `for pod in pods.items`, for the pod's label `app`.
unfoldable pub pod_step : Pod → String → TsReport → TsReport
unfolding see_pod phase_problems restart_problems
pod_step pod app r =
    let seen = see_pod pod r in
    let total = r.summary.pods_total + 1 in
    let info : PodInfo = record {
      name = pod.name;
      phase = pod.phase;
      ready = seen.container_ready && pod.phase == "Running";
      restarts = seen.restart_count;
      app = app;
    } in
    if contains good_phases pod.phase
    then record {
      summary = record r.summary { pods_total = total; pods_running = r.summary.pods_running + 1 };
      pods = r.pods ++ info ∷ [];
      problems = seen.problems ++ restart_problems pod.name seen.restart_count;
    }
    else record {
      summary = record r.summary { pods_total = total; pods_failed = r.summary.pods_failed + 1 };
      pods = r.pods ++ info ∷ [];
      problems =
          seen.problems ++ phase_problems pod ++ restart_problems pod.name seen.restart_count;
    }

-- A round for a pod with no labels, until `pod.metadata.labels.get` raises.
unfoldable pub cut_step : Pod → TsReport → TsReport
unfolding see_pod
cut_step pod r = record r {
  summary = record r.summary { pods_total = r.summary.pods_total + 1 };
  problems = (see_pod pod r).problems;
}

abbrev pub no_labels : String
no_labels = "'NoneType' object has no attribute 'get'"

-- `for pod in pods.items`, with the exception that ends it, if any.
unfoldable pub pod_loop : List Pod → TsReport → TsReport × Option String
unfolding pod_step cut_step
pod_loop [] r = (r, none)
pod_loop (pod ∷ pods) r = elim pod.app [
  | none ↦ (cut_step pod r, some no_labels)
  | some app ↦ pod_loop pods (pod_step pod app r)
]

-- One round of `for dep in deps.items`.
unfoldable pub deployment_step : Deployment → TsReport → TsReport
deployment_step dep r =
    let total = r.summary.deployments_total + 1 in
    if leb dep.desired dep.available
    then record r {
      summary = record r.summary {
        deployments_total = total;
        deployments_healthy = r.summary.deployments_healthy + 1;
      };
    }
    else record r {
      summary = record r.summary {
        deployments_total = total;
        deployments_unhealthy = r.summary.deployments_unhealthy + 1;
      };
      problems =
          r.problems
          ++ problem "factor-ts" high ("deploy/" then dep.name)
              (replicas (dep.desired - dep.available) dep.desired)
            ∷ [];
    }

unfoldable pub deployment_loop : List Deployment → TsReport → TsReport
unfolding deployment_step
deployment_loop [] r = r
deployment_loop (dep ∷ deps) r = deployment_loop deps (deployment_step dep r)

-- `for cj in crons.items`, by the number of active jobs of each.
unfoldable pub cron_loop : List ℕ → TsReport → TsReport
cron_loop [] r = r
cron_loop (active ∷ crons) r = cron_loop crons (record r {
  summary = record r.summary {
    cronjobs_total = r.summary.cronjobs_total + 1;
    cronjobs_active = r.summary.cronjobs_active + active;
  };
})

unfoldable pub no_access : String → TsReport → TsReport
no_access exc r = record r {
  problems = r.problems ++ problem "factor-ts" medium "api" (unable exc) ∷ [];
}

abbrev pub empty_report : TsReport
empty_report = record {
  summary = record {
    pods_total = 0;
    pods_running = 0;
    pods_failed = 0;
    deployments_total = 0;
    deployments_healthy = 0;
    deployments_unhealthy = 0;
    cronjobs_total = 0;
    cronjobs_active = 0;
  };
  pods = [];
  problems = [];
}

-- The deployments and the jobs, once the pods are done.
unfoldable pub after_pods : Reply (List Deployment) → Reply (List ℕ) → TsReport → TsReport
unfolding deployment_loop cron_loop no_access
after_pods (raises exc) crons r = no_access exc r
after_pods (returns deps) (raises exc) r = no_access exc (deployment_loop deps r)
after_pods (returns deps) (returns crons) r = cron_loop crons (deployment_loop deps r)

-- The three listings, in order; the first exception ends the `try` block.
unfoldable pub check_factor_ts :
    Reply (List Pod) → Reply (List Deployment) → Reply (List ℕ) → TsReport
unfolding pod_loop after_pods no_access
check_factor_ts (raises exc) deps crons = no_access exc empty_report
check_factor_ts (returns pods) deps crons =
    let looped = pod_loop pods empty_report in
    elim looped.1 [ none ↦ after_pods deps crons looped.0 | some exc ↦ no_access exc looped.0 ]
