-- ===== src/Tests/Cluster.antt =====
-- Examples for the cluster, the logs and the rounds of the dashboard.
use jim_tf.Base.{
  ℕ, ◌≡◌, ◌≢◌, refl, String, some, List, [], ◌∷◌, true, ◌==◌, string_key, lookup, get_or, All,
  arith,
}
use jim_tf.Observe.{raises, returns}
use jim_tf.Observe.Alerts.Spacing.{Spaced, sent_of}
use jim_tf.Observe.Kubernetes.{Pod, Deployment, Node, check_kubernetes}
use jim_tf.Observe.Kubernetes.Counted.{IsCounted, check_kubernetes-IsCounted}
use jim_tf.Observe.Logs.{Texts, Limits, new_pattern, last_of, analyze}
use jim_tf.Observe.Logs.Rolling.{Call, baselines_after, snapshots_of, baseline-IsWindow}
use jim_tf.Observe.Logs.Repeats.{analyze_again}
use jim_tf.Observe.Rounds.{Config, Answers, Event as Happening, poll, page, initial}
use jim_tf.Observe.Rounds.Runs.{CacheAgrees, run, run-IsSound}

abbrev crashed : Pod
crashed = record {
  namespace = "default";
  name = "worker";
  phase = "Failed";
  statuses =
      record {
        name = "main";
        restart_count = 9;
        waiting = some "CrashLoopBackOff";
        terminated = some "OOMKilled";
      }
      ∷ [];
}

abbrev short_deployment : Deployment
short_deployment = record { namespace = "default"; name = "web"; desired = 3; available = 1 }

abbrev lost_node : Node
lost_node = record {
  name = "n1";
  conditions = record { kind = "DiskPressure"; status = "True" } ∷ [];
}

check_kubernetes-IsCounted_example : IsCounted (
    check_kubernetes
      (returns (crashed ∷ []))
      (returns (short_deployment ∷ []))
      (returns (lost_node ∷ []))
      (raises "timeout"))
check_kubernetes-IsCounted_example =
    check_kubernetes-IsCounted (returns (crashed ∷ [])) (returns (short_deployment ∷ []))
      (returns (lost_node ∷ [])) (raises "timeout")

-- Texts of one line each.
abbrev one_line : Texts
one_line = record {
  splitlines = λ t. t ∷ [];
  strip = λ t. t;
  replacements = [];
  set_order = λ fps. fps;
}

abbrev two_polls : Limits
two_polls = record { window = 2; spike_num = 3; spike_den = 1 }

abbrev call_at : ℕ → String → String → Call
call_at now k text = record { now = now; task_key = k; stderr = text; stdout = "" }

abbrev calls : List Call
calls = call_at 1 "a" "x" ∷ call_at 2 "b" "y" ∷ call_at 3 "a" "z" ∷ call_at 4 "a" "x" ∷ []

baseline-IsWindow_example :
    get_or (lookup "a" (baselines_after one_line two_polls calls [])) []
    ≡ last_of two_polls.window (snapshots_of one_line two_polls "a" calls)
baseline-IsWindow_example = baseline-IsWindow one_line two_polls (omega arith) "a" calls

analyze_again_example :
    All
      (λ a. a.kind ≢ new_pattern)
      (analyze one_line two_polls 6 "a" "w" ""
        (analyze one_line two_polls 5 "a" "w" ""
          (baselines_after one_line two_polls calls [])).1).0.anomalies
analyze_again_example =
    analyze_again one_line two_polls 5 6 "a" "w" "" (baselines_after one_line two_polls calls [])
      (omega arith) (λ xs y. refl)

abbrev config : Config
config = record {
  texts = one_line;
  limits = two_polls;
  fnmatch = λ name pattern. name == pattern;
  rules = ("nomad", "job/factor") ∷ [];
  second = 1;
  nomad_addr = "http://nomad";
  ignored_jobs = [];
  rds_instance_id = "main";
  alerts_enabled = true;
  cluster = "factors";
  region = "us-east-1";
}

-- Everything that can raise does so.
abbrev broken_at : ℕ → Answers
broken_at now = record {
  kube_pods = returns (crashed ∷ []);
  kube_deployments = raises "timeout";
  kube_nodes = returns [];
  kube_events = returns [];
  nomad_health = raises "refused";
  nomad_jobs = returns [];
  nomad_allocs = returns [];
  nomad_evals = returns [];
  running_allocs = raises "refused";
  fetch = λ t. record { now = now; stderr = returns (200, "x"); stdout = returns (404, "") };
  queues = [];
  instances = returns [];
  ringing = returns [];
  unknown = returns [];
  ts_pods = returns [];
  ts_deployments = returns [];
  ts_crons = returns [];
  stamped_at = now;
  history_at = now;
  result_at = now;
  alerts_at = now;
}

abbrev day : List Happening
day =
    page (broken_at 1000)
    ∷ poll (broken_at 1200)
    ∷ page (broken_at 1250)
    ∷ poll (broken_at 1400)
    ∷ []

run-IsSound_example :
    Spaced config.second (sent_of config.second (run config day initial).alerting.attempts)
    × CacheAgrees (run config day initial).cache
run-IsSound_example = run-IsSound config day
