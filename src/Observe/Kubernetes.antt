-- ===== src/Observe/Kubernetes.antt =====
-- `check_kubernetes`: the pods, deployments, nodes and warning events of the cluster.
pub mod Counted
use jim_tf.Base.{
  ℕ, ◌+◌, ◌-◌, String, Option, none, some, Bool, true, false, ◌&&◌, List, [], ◌∷◌, ◌++◌, map, take,
  length, get_or, ltb, leb, contains, string_key, ◌==◌, if◌then◌else◌,
}
use Prim.Native.String.{◌++◌ as ◌then◌}
use jim_tf.Observe.{
  Severity, critical, high, medium, low, Text, unable, plain, named, replicas, restarts, Problem,
  problem, Reply, raises, returns,
}
use jim_tf.Observe.Services.{cut}
use jim_tf.Observe.FactorTs.{bad_reasons, good_phases}

-- The status of a container: the reasons for which it waits and was ended, if it does and was, ""
-- where there is no reason.
pub record Status : Type 0 where
  pub name : String
  pub restart_count : ℕ
  pub waiting : Option String
  pub terminated : Option String

pub record Pod : Type 0 where
  pub namespace : String
  pub name : String
  pub phase : String
  pub statuses : List Status

pub record Deployment : Type 0 where
  pub namespace : String
  pub name : String
  pub desired : ℕ
  pub available : ℕ

pub record Condition : Type 0 where
  pub kind : String
  pub status : String

pub record Node : Type 0 where
  pub name : String
  pub conditions : List Condition

pub record Event : Type 0 where
  pub namespace : String
  pub name : String
  pub reason : String
  pub message : Option String

pub record KubeSummary : Type 0 where
  pub pods_total : ℕ
  pub pods_healthy : ℕ
  pub pods_unhealthy : ℕ
  pub deployments_total : ℕ
  pub deployments_healthy : ℕ
  pub deployments_unhealthy : ℕ
  pub nodes_total : ℕ
  pub nodes_ready : ℕ
  pub nodes_not_ready : ℕ
  pub warning_events : ℕ

pub record KubeReport : Type 0 where
  pub summary : KubeSummary
  pub problems : List Problem

abbrev pub report : Severity → String → Text → Problem
report severity component message = problem "kubernetes" severity component message

abbrev pub pod_path : Pod → String
pod_path pod = "pod/" then (pod.namespace then ("/" then pod.name))

-- What the two reasons of a container add to the problems.
unfoldable pub status_problems : String → Status → List Problem
status_problems path cs =
    elim cs.waiting [
      | none ↦ []
      | some reason ↦
          if contains bad_reasons reason
          then report (if reason == "OOMKilled" then critical else high) path (named cs.name reason)
            ∷ []
          else []
    ]
    ++ elim cs.terminated [
      | none ↦ []
      | some reason ↦
          if reason == "OOMKilled"
          then report critical path (named cs.name "OOMKilled") ∷ []
          else []
    ]

-- `for cs in pod.status.container_statuses`: the restarts and the problems.
unfoldable pub restart_total : List Status → ℕ → ℕ
restart_total [] restart_count = restart_count
restart_total (cs ∷ rest) restart_count = restart_total rest (restart_count + cs.restart_count)

unfoldable pub status_loop : String → List Status → List Problem → List Problem
unfolding status_problems
status_loop path [] problems = problems
status_loop path (cs ∷ rest) problems = status_loop path rest (problems ++ status_problems path cs)

unfoldable pub phase_problems : Pod → List Problem
phase_problems pod =
    if contains good_phases pod.phase
    then []
    else if pod.phase == "Failed"
    then report high (pod_path pod) (plain pod.phase) ∷ []
    else []

unfoldable pub restart_problems : Pod → List Problem
unfolding restart_total
restart_problems pod =
    let restart_count = restart_total pod.statuses 0 in
    if ltb 5 restart_count then report medium (pod_path pod) (restarts restart_count) ∷ [] else []

-- One round of `for pod in pods.items`.
unfoldable pub pod_step : Pod → KubeReport → KubeReport
unfolding status_loop phase_problems restart_problems
pod_step pod r =
    let s = r.summary in
    let good = contains good_phases pod.phase in
    record {
      summary = record s {
        pods_total = s.pods_total + 1;
        pods_healthy = if good then s.pods_healthy + 1 else s.pods_healthy;
        pods_unhealthy = if good then s.pods_unhealthy else s.pods_unhealthy + 1;
      };
      problems =
          status_loop (pod_path pod) pod.statuses r.problems
          ++ phase_problems pod
          ++ restart_problems pod;
    }

-- One round of `for dep in deps.items`.
unfoldable pub deployment_step : Deployment → KubeReport → KubeReport
deployment_step dep r =
    let s = r.summary in
    let total = s.deployments_total + 1 in
    let path = "deploy/" then (dep.namespace then ("/" then dep.name)) in
    if leb dep.desired dep.available
    then record r {
      summary = record s {
        deployments_total = total;
        deployments_healthy = s.deployments_healthy + 1;
      };
    }
    else record {
      summary = record s {
        deployments_total = total;
        deployments_unhealthy = s.deployments_unhealthy + 1;
      };
      problems =
          r.problems ++ report high path (replicas (dep.desired - dep.available) dep.desired) ∷ [];
    }

abbrev pub pressures : List String
pressures = "MemoryPressure" ∷ "DiskPressure" ∷ "PIDPressure" ∷ []

-- `for cond in (node.status.conditions or [])`: whether the node is ready, and the problems.
unfoldable pub is_ready : List Condition → Bool → Bool
is_ready [] ready = ready
is_ready (cond ∷ rest) ready =
    is_ready rest (if cond.kind == "Ready" && cond.status == "True" then true else ready)

unfoldable pub pressure_problems : String → List Condition → List Problem → List Problem
pressure_problems path [] problems = problems
pressure_problems path (cond ∷ rest) problems = pressure_problems path rest (
    if contains pressures cond.kind && cond.status == "True"
    then problems ++ report high path (plain cond.kind) ∷ []
    else problems)

-- One round of `for node in nodes.items`.
unfoldable pub node_step : Node → KubeReport → KubeReport
unfolding is_ready pressure_problems
node_step node r =
    let s = r.summary in
    let total = s.nodes_total + 1 in
    let path = "node/" then node.name in
    let problems = pressure_problems path node.conditions r.problems in
    if is_ready node.conditions false
    then record {
      summary = record s { nodes_total = total; nodes_ready = s.nodes_ready + 1 };
      problems = problems;
    }
    else record {
      summary = record s { nodes_total = total; nodes_not_ready = s.nodes_not_ready + 1 };
      problems = problems ++ report critical path (plain "Node NotReady") ∷ [];
    }

-- `{ev.message[:120] if ev.message else ''}`
unfoldable pub event_problem : Event → Problem
unfolding cut
event_problem ev =
    report low ("event/" then (ev.namespace then ("/" then ev.name)))
      (named ev.reason (cut 120 (get_or ev.message "")))

unfoldable pub event_part : List Event → KubeReport → KubeReport
unfolding event_problem
event_part events r = record {
  summary = record r.summary { warning_events = length events };
  problems = r.problems ++ map event_problem (take 10 events);
}

abbrev pub each {ℓ} :
    {A : Type ℓ} → (A → KubeReport → KubeReport) → List A → KubeReport → KubeReport
each step [] r = r
each step (x ∷ xs) r = each step xs (step x r)

-- `except Exception`
unfoldable pub unreachable : String → KubeReport → KubeReport
unreachable exc r = record r { problems = r.problems ++ report critical "api" (unable exc) ∷ [] }

abbrev pub nothing_yet : KubeReport
nothing_yet = record {
  summary = record {
    pods_total = 0;
    pods_healthy = 0;
    pods_unhealthy = 0;
    deployments_total = 0;
    deployments_healthy = 0;
    deployments_unhealthy = 0;
    nodes_total = 0;
    nodes_ready = 0;
    nodes_not_ready = 0;
    warning_events = 0;
  };
  problems = [];
}

-- A listing that returns is worked on, and the rest follows; one that raises ends the `try` block.
abbrev pub after {ℓ} :
    {A : Type ℓ}
    → Reply A
    → (A → KubeReport → KubeReport)
    → (KubeReport → KubeReport)
    → KubeReport
    → KubeReport
after (raises exc) work rest r = unreachable exc r
after (returns items) work rest r = rest (work items r)

unfoldable pub check_kubernetes :
    Reply (List Pod) → Reply (List Deployment) → Reply (List Node) → Reply (List Event) → KubeReport
unfolding pod_step deployment_step node_step event_part unreachable
check_kubernetes pods deps nodes events =
    after pods (each pod_step)
      (after deps (each deployment_step)
        (after nodes (each node_step) (after events event_part (λ r. r))))
      nothing_yet
