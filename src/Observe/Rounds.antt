-- ===== src/Observe/Rounds.antt =====
-- `collect_all` with all its checks, the poller, and the pages that show what was collected.
pub mod Runs
use jim_tf.Base.{
  ℕ, String, Option, none, some, Bool, true, false, List, [], ◌∷◌, ◌++◌, map, length, keep, nat_eq,
  if◌then◌else◌,
}
use jim_tf.Observe.{Problem, Reply}
use jim_tf.Observe.Alerts.{Alerting, fire_alerts}
use jim_tf.Observe.Services.{
  Depths, SqsReport, check_sqs, Instance, RdsReport, check_rds, Alarm, AlarmReport,
  check_cloudwatch_alarms,
}
use jim_tf.Observe.FactorTs
use jim_tf.Observe.Nomad
use jim_tf.Observe.Kubernetes
use jim_tf.Observe.Logs.{Texts, Limits, Baselines}
use jim_tf.Observe.Logs.Scan
use jim_tf.Observe.Collect.{severity_order, Overall, Collected, is_suppressed, stamp, collect}

-- The settings of the environment, and the parts of Python's library. `alerts_enabled` says that there
-- are a notification client and a topic.
pub record Config : Type 0 where
  pub texts : Texts
  pub limits : Limits
  pub fnmatch : String → String → Bool
  pub rules : List (String × String)
  pub second : ℕ
  pub nomad_addr : String
  pub ignored_jobs : List String
  pub rds_instance_id : String
  pub alerts_enabled : Bool
  pub cluster : String
  pub region : String

-- What the services answer to one call of `collect_all`, and its clock readings.
pub record Answers : Type 0 where
  pub kube_pods : Reply (List Kubernetes.Pod)
  pub kube_deployments : Reply (List Kubernetes.Deployment)
  pub kube_nodes : Reply (List Kubernetes.Node)
  pub kube_events : Reply (List Kubernetes.Event)
  pub nomad_health : Reply ℕ
  pub nomad_jobs : Reply (List Nomad.Job)
  pub nomad_allocs : Reply (List Nomad.Alloc)
  pub nomad_evals : Reply (List Nomad.Evaluation)
  pub running_allocs : Reply (List Scan.Alloc)
  pub fetch : Scan.Task → Scan.Fetch
  pub queues : List (String × Reply Depths)
  pub instances : Reply (List Instance)
  pub ringing : Reply (List Alarm)
  pub unknown : Reply (List Alarm)
  pub ts_pods : Reply (List FactorTs.Pod)
  pub ts_deployments : Reply (List FactorTs.Deployment)
  pub ts_crons : Reply (List ℕ)
  pub stamped_at : ℕ
  pub history_at : ℕ
  pub result_at : ℕ
  pub alerts_at : ℕ

-- The dictionary `result`.
pub record Result : Type 0 where
  pub timestamp : ℕ
  pub cluster : String
  pub region : String
  pub overall : Overall
  pub kubernetes : Kubernetes.KubeReport
  pub nomad : Nomad.NomadReport
  pub nomad_logs : Scan.LogReport
  pub sqs : SqsReport
  pub rds : RdsReport
  pub cloudwatch : AlarmReport
  pub factor_ts : FactorTs.TsReport
  pub all_problems : List Problem
  pub all_history : List Problem
  pub problem_count : ℕ
  pub history_count : ℕ
  pub critical_count : ℕ
  pub high_count : ℕ

-- `_problem_history`, `_log_baselines`, `_alert_cooldowns` with the notices, and `_cache`.
pub record State : Type 0 where
  pub history : List Problem
  pub baselines : Baselines
  pub alerting : Alerting
  pub cache : Option Result

abbrev pub count_rank : ℕ → List Problem → ℕ
count_rank n problems =
    length (keep (λ (p : Problem). nat_eq (severity_order p.severity) n) problems)

module _ (config : Config) where
  unfoldable pub found_problems :
      Kubernetes.KubeReport
      → Nomad.NomadReport
      → Scan.LogReport
      → SqsReport
      → RdsReport
      → AlarmReport
      → FactorTs.TsReport
      → List Problem
  found_problems k8s nomad nomad_logs sqs rds cw factor_ts =
      k8s.problems ++ nomad.problems ++ nomad_logs.problems ++ sqs.problems ++ rds.problems
      ++ cw.problems ++ factor_ts.problems

  -- The problems that `collect_all` finds, and what `collect` makes of them.
  unfoldable pub gather_logs : Answers → Baselines → Scan.LogReport
  gather_logs a baselines =
      Scan.check_nomad_logs config.texts config.limits config.nomad_addr a.running_allocs a.fetch
        baselines

  unfoldable pub found : Answers → Baselines → List Problem
  unfolding found_problems gather_logs
  found a baselines =
      found_problems
        (Kubernetes.check_kubernetes a.kube_pods a.kube_deployments a.kube_nodes a.kube_events)
        (Nomad.check_nomad config.ignored_jobs config.nomad_addr a.nomad_health a.nomad_jobs
          a.nomad_allocs a.nomad_evals)
        (gather_logs a baselines) (check_sqs a.queues)
        (check_rds config.rds_instance_id a.instances) (check_cloudwatch_alarms a.ringing a.unknown)
        (FactorTs.check_factor_ts a.ts_pods a.ts_deployments a.ts_crons)

  unfoldable pub shown : Answers → State → Collected
  unfolding found
  shown a s =
      collect config.fnmatch config.rules config.second a.stamped_at a.history_at
        (found a s.baselines) s.history

  -- `_stamp_problems` writes to the problems that the reports of the checks hold, too.
  unfoldable pub stamped_part : Answers → List Problem → List Problem
  unfolding is_suppressed stamp
  stamped_part a problems =
      map
        (λ (p : Problem).
          if is_suppressed config.fnmatch config.rules p then p else stamp a.stamped_at p)
        problems

  unfoldable pub result_of : Answers → State → Result
  unfolding shown gather_logs stamped_part
  result_of a s =
      let c = shown a s in
      let k8s : Kubernetes.KubeReport =
        Kubernetes.check_kubernetes a.kube_pods a.kube_deployments a.kube_nodes a.kube_events in
      let nomad : Nomad.NomadReport =
        Nomad.check_nomad config.ignored_jobs config.nomad_addr a.nomad_health a.nomad_jobs
          a.nomad_allocs a.nomad_evals in
      let nomad_logs : Scan.LogReport = gather_logs a s.baselines in
      let sqs : SqsReport = check_sqs a.queues in
      let rds : RdsReport = check_rds config.rds_instance_id a.instances in
      let cw : AlarmReport = check_cloudwatch_alarms a.ringing a.unknown in
      let factor_ts : FactorTs.TsReport =
        FactorTs.check_factor_ts a.ts_pods a.ts_deployments a.ts_crons in
      record {
        timestamp = a.result_at;
        cluster = config.cluster;
        region = config.region;
        overall = c.overall;
        kubernetes = record k8s { problems = stamped_part a k8s.problems };
        nomad = record nomad { problems = stamped_part a nomad.problems };
        nomad_logs = record nomad_logs { problems = stamped_part a nomad_logs.problems };
        sqs = record sqs { problems = stamped_part a sqs.problems };
        rds = record rds { problems = stamped_part a rds.problems };
        cloudwatch = record cw { problems = stamped_part a cw.problems };
        factor_ts = record factor_ts { problems = stamped_part a factor_ts.problems };
        all_problems = c.problems;
        all_history = c.all_history;
        problem_count = length c.problems;
        history_count = length c.all_history;
        critical_count = count_rank 0 c.problems;
        high_count = count_rank 1 c.problems;
      }

  unfoldable pub collect_all : Answers → State → Result × State
  unfolding result_of shown gather_logs
  collect_all a s =
      let result = result_of a s in
      (
        result,
        record {
          history = (shown a s).history;
          baselines = (gather_logs a s.baselines).baselines;
          alerting =
              fire_alerts config.second config.alerts_enabled a.alerts_at result.all_problems
                s.alerting;
          cache = some result;
        },
      )

  -- `index` and `api_status`: the cached result, and a new one if there is none.
  unfoldable pub show_page : Answers → State → Result × State
  unfolding collect_all
  show_page a s = elim s.cache [ some result ↦ (result, s) | none ↦ collect_all a s ]

-- A round of the poller, a page, or `/api/refresh`, each with what the services would answer.
pub data Event : Type 0 where
  poll page refresh : Answers → Event

module _ (config : Config) where
  unfoldable pub handle : Event → State → Result × State
  unfolding collect_all show_page
  handle (poll a) s = collect_all config a s
  handle (page a) s = show_page config a s
  handle (refresh a) s = collect_all config a s

abbrev pub initial : State
initial = record {
  history = [];
  baselines = [];
  alerting = record { cooldowns = []; attempts = [] };
  cache = none;
}
