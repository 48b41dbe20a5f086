-- ===== src/Observe/Kubernetes/Counted.antt =====
-- The counts of `check_kubernetes`, and that what it counts as wrong is among the problems.
use jim_tf.Base.{
  ℕ, ◌+◌, ◌≤◌, ◌≡◌, refl, String, Bool, true, false, List, [], ◌∷◌, ◌++◌, map, take, length,
  length-append, Bool-cases, inl, inr, leb, contains, string_key, arith, if◌then◌else◌,
}
use jim_tf.Observe.{Problem, Reply, raises, returns, high, plain}
use jim_tf.Observe.FactorTs.{good_phases}
use jim_tf.Observe.Kubernetes.{
  Status, Pod, Deployment, Condition, Node, Event, KubeReport, status_problems, status_loop,
  phase_problems, restart_problems, pod_path, pod_step, deployment_step, is_ready,
  pressure_problems, report, node_step, event_problem, event_part, each, unreachable, nothing_yet,
  after, check_kubernetes,
}

-- Every pod, deployment and node is counted once, and each deployment and node that is counted as
-- wrong has added a problem.
pub record IsCounted (r : KubeReport) : Type 0 where
  pub pods : r.summary.pods_healthy + r.summary.pods_unhealthy ≡ r.summary.pods_total
  pub deployments :
      r.summary.deployments_healthy + r.summary.deployments_unhealthy ≡ r.summary.deployments_total
  pub nodes : r.summary.nodes_ready + r.summary.nodes_not_ready ≡ r.summary.nodes_total
  pub reported : r.summary.deployments_unhealthy + r.summary.nodes_not_ready ≤ length r.problems

longer : (xs ys : List Problem) (n : ℕ) → n ≤ length xs → n ≤ length (xs ++ ys)
longer xs ys n h = omega (arith, h, length-append xs ys)

one_longer :
    (xs : List Problem) (x : Problem) (n : ℕ) → n ≤ length xs → n + 1 ≤ length (xs ++ x ∷ [])
one_longer xs x n h = omega (arith, h, length-append xs (x ∷ []))

status_loop-longer :
    (path : String) (statuses : List Status) (ps : List Problem) (n : ℕ)
    → n ≤ length ps
    → n ≤ length (status_loop path statuses ps)
unfolding status_loop
status_loop-longer path [] ps n h = h
status_loop-longer path (cs ∷ rest) ps n h =
    status_loop-longer path rest (ps ++ status_problems path cs) n
      (longer ps (status_problems path cs) n h)

pressure-longer :
    (path : String) (conds : List Condition) (ps : List Problem) (n : ℕ)
    → n ≤ length ps
    → n ≤ length (pressure_problems path conds ps)
unfolding pressure_problems
pressure-longer path [] ps n h = h
pressure-longer path (cond ∷ rest) ps n h = pressure-longer path rest _ n (added _)
  where
    added :
        (b : Bool) → n ≤ length (if b then ps ++ report high path (plain cond.kind) ∷ [] else ps)
    added true = longer ps _ n h
    added false = h

module _ (r : KubeReport) (h : IsCounted r) where
  pod_step-IsCounted : (pod : Pod) → IsCounted (pod_step pod r)
  unfolding pod_step
  pod_step-IsCounted pod = record {
    pods = by_phase (contains good_phases pod.phase);
    deployments = h.deployments;
    nodes = h.nodes;
    reported =
        let seen = status_loop (pod_path pod) pod.statuses r.problems in
        longer (seen ++ phase_problems pod) (restart_problems pod) _ (
          longer seen (phase_problems pod) _
            (status_loop-longer (pod_path pod) pod.statuses r.problems _ h.reported));
  }
    where
      by_phase :
          (b : Bool)
          → (if b then r.summary.pods_healthy + 1 else r.summary.pods_healthy)
              + (if b then r.summary.pods_unhealthy else r.summary.pods_unhealthy + 1)
            ≡ r.summary.pods_total + 1
      by_phase true = omega (arith, h.pods)
      by_phase false = omega (arith, h.pods)

  deployment_step-IsCounted : (dep : Deployment) → IsCounted (deployment_step dep r)
  unfolding deployment_step
  deployment_step-IsCounted dep = elim (Bool-cases (leb dep.desired dep.available)) [
    | inl good ↦
        rw (good, deployment_step)
          (record {
            pods = h.pods;
            deployments = omega (arith, h.deployments);
            nodes = h.nodes;
            reported = h.reported;
          })
    | inr bad ↦
        rw (bad, deployment_step)
          (record {
            pods = h.pods;
            deployments = omega (arith, h.deployments);
            nodes = h.nodes;
            reported = omega (arith, one_longer r.problems _ _ h.reported);
          })
  ]

  node_step-IsCounted : (node : Node) → IsCounted (node_step node r)
  unfolding node_step
  node_step-IsCounted node = elim (Bool-cases (is_ready node.conditions false)) [
    | inl good ↦
        rw (good, node_step)
          (record {
            pods = h.pods;
            deployments = h.deployments;
            nodes = omega (arith, h.nodes);
            reported = pressure-longer _ node.conditions r.problems _ h.reported;
          })
    | inr bad ↦
        rw (bad, node_step)
          (record {
            pods = h.pods;
            deployments = h.deployments;
            nodes = omega (arith, h.nodes);
            reported = omega (
              arith,
              one_longer _ _ _ (pressure-longer _ node.conditions r.problems _ h.reported),
            );
          })
  ]

  event_part-IsCounted : (events : List Event) → IsCounted (event_part events r)
  unfolding event_part
  event_part-IsCounted events = record {
    pods = h.pods;
    deployments = h.deployments;
    nodes = h.nodes;
    reported = longer r.problems (map event_problem (take 10 events)) _ h.reported;
  }

  unreachable-IsCounted : (exc : String) → IsCounted (unreachable exc r)
  unfolding unreachable
  unreachable-IsCounted exc = record {
    pods = h.pods;
    deployments = h.deployments;
    nodes = h.nodes;
    reported = longer r.problems _ _ h.reported;
  }

-- A part of the check keeps the counts.
abbrev Keeps : (KubeReport → KubeReport) → Type 0
Keeps f = (r : KubeReport) → IsCounted r → IsCounted (f r)

each-Keeps {ℓ} :
    {A : Type ℓ} (step : A → KubeReport → KubeReport)
    → ((x : A) (r : KubeReport) → IsCounted r → IsCounted (step x r))
    → (xs : List A) → Keeps (each step xs)
each-Keeps step k [] r h = h
each-Keeps step k (x ∷ xs) r h = each-Keeps step k xs (step x r) (k x r h)

after-Keeps {ℓ} :
    {A : Type ℓ} (reply : Reply A) (work : A → KubeReport → KubeReport)
    (rest : KubeReport → KubeReport)
    → ((items : A) → Keeps (work items))
    → Keeps rest
    → Keeps (after reply work rest)
after-Keeps (raises exc) work rest k l r h = unreachable-IsCounted r h exc
after-Keeps (returns items) work rest k l r h = l (work items r) (k items r h)

-- Whichever of the four listings raises, the healthy and unhealthy pods and deployments and the nodes
-- that are ready and not ready add up to their totals, and there are at least as many problems as
-- unhealthy deployments and nodes that are not ready.
pub check_kubernetes-IsCounted :
    (pods : Reply (List Pod)) (deps : Reply (List Deployment)) (nodes : Reply (List Node))
    (events : Reply (List Event))
    → IsCounted (check_kubernetes pods deps nodes events)
unfolding check_kubernetes
check_kubernetes-IsCounted pods deps nodes events =
    after-Keeps pods (each pod_step) _ (each-Keeps pod_step (λ pod r h. pod_step-IsCounted r h pod))
      (after-Keeps deps (each deployment_step) _
        (each-Keeps deployment_step (λ dep r h. deployment_step-IsCounted r h dep))
        (after-Keeps nodes (each node_step) _
          (each-Keeps node_step (λ node r h. node_step-IsCounted r h node))
          (after-Keeps events event_part (λ r. r) (λ es r h. event_part-IsCounted r h es)
            (λ r h. h))))
      nothing_yet (record { pods = refl; deployments = refl; nodes = refl; reported = omega arith })
