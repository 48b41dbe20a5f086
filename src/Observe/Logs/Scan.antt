-- ===== src/Observe/Logs/Scan.antt =====
-- `check_nomad_logs`: the logs of all running tasks.
use jim_tf.Base.{
  ℕ, ◌+◌, String, Option, none, some, Bool, true, false, ◌||◌, List, [], ◌∷◌, ◌++◌, map, take, keep,
  length, get_or, leb, ltb, nat_eq, string_key, ◌==◌, if◌then◌else◌,
}
use Prim.Native.String.{◌++◌ as ◌then◌}
use jim_tf.Observe.{
  Sample, line, volumes, high, medium, unable, log_anomaly, Problem, problem, Reply, raises,
  returns,
}
use jim_tf.Observe.Services.{cut}
use jim_tf.Observe.Logs.{
  Texts, Limits, Baselines, Kind, new_pattern, volume_spike, frequency_spike, Anomaly, Analysis,
  analyze,
}

-- What is read of a running allocation. Without an `ID`, `a["ID"]` raises at its first task.
pub record Alloc : Type 0 where
  pub id : Option String
  pub job_id : Option String
  pub task_group : Option String
  pub tasks : List String
  pub node_id : Option String

pub record Task : Type 0 where
  pub alloc_id : String
  pub job : String
  pub task_group : String
  pub task : String
  pub node_id : String

-- The loop of `_get_running_allocs` over the tasks of one allocation, and over all.
unfoldable pub task_of : Alloc → String → String → Task
task_of a id name = record {
  alloc_id = id;
  job = get_or a.job_id "?";
  task_group = get_or a.task_group "?";
  task = name;
  node_id = get_or a.node_id "";
}

unfoldable pub tasks_of : Alloc → Reply (List Task)
unfolding task_of
tasks_of a = elim a.tasks [
  | [] ↦ returns []
  | t ∷ ts ↦ elim a.id [ none ↦ raises "ID" | some id ↦ returns (map (task_of a id) (t ∷ ts)) ]
]

abbrev pub both_lists : Reply (List Task) → Reply (List Task) → Reply (List Task)
both_lists (raises exc) more = raises exc
both_lists (returns ts) (raises exc) = raises exc
both_lists (returns ts) (returns more) = returns (ts ++ more)

unfoldable pub running_tasks : List Alloc → Reply (List Task)
unfolding tasks_of
running_tasks [] = returns []
running_tasks (a ∷ allocs) = both_lists (tasks_of a) (running_tasks allocs)

-- `_fetch_task_log`, of the status code and the text of the answer.
unfoldable pub fetched : Reply (ℕ × String) → Reply String
fetched (raises exc) = raises exc
fetched (returns (status_code, text)) = returns (if nat_eq status_code 200 then text else "")

pub record LogSummary : Type 0 where
  pub tasks_scanned : ℕ
  pub tasks_with_anomalies : ℕ
  pub total_anomalies : ℕ
  pub baseline_learning : Bool

pub record Finding : Type 0 where
  pub task : Task
  pub alloc_short : String
  pub line_count : ℕ
  pub unique_patterns : ℕ
  pub anomaly_count : ℕ
  pub anomalies : List Anomaly
  pub learning : Bool

pub record LogReport : Type 0 where
  pub summary : LogSummary
  pub log_findings : List Finding
  pub problems : List Problem
  pub baselines : Baselines

abbrev pub is_new : Kind → Bool
is_new new_pattern = true
is_new _ = false

abbrev pub is_volume : Kind → Bool
is_volume volume_spike = true
is_volume _ = false

abbrev pub is_frequency : Kind → Bool
is_frequency frequency_spike = true
is_frequency _ = false

unfoldable pub how_many : (Kind → Bool) → List Anomaly → ℕ
how_many p anomalies = length (keep (λ (a : Anomaly). p a.kind) anomalies)

-- `sample[:100]`; the text of a volume spike is shorter.
unfoldable pub cut_sample : Sample → Sample
unfolding cut
cut_sample (line text) = line (cut 100 text)
cut_sample (volumes n total count) = volumes n total count

abbrev pub first_sample : List Anomaly → Sample
first_sample [] = line ""
first_sample (a ∷ anomalies) = a.sample

unfoldable pub task_key : Task → String
task_key t = t.job then ("/" then (t.task_group then ("/" then t.task)))

-- The problem of a task whose baseline is learned.
unfoldable pub anomaly_problem : Task → List Anomaly → Problem
unfolding how_many cut_sample task_key
anomaly_problem t anomalies =
    let has_volume = ltb 0 (how_many is_volume anomalies) in
    let new_count = how_many is_new anomalies in
    problem "nomad-logs" (if has_volume || leb 3 new_count then high else medium)
      ("logs/" then task_key t)
      (log_anomaly has_volume new_count (how_many is_frequency anomalies)
        (cut_sample (first_sample anomalies)))

unfoldable pub finding : Task → Analysis → Finding
unfolding cut
finding t result = record {
  task = t;
  alloc_short = cut 8 t.alloc_id;
  line_count = result.line_count;
  unique_patterns = result.unique_patterns;
  anomaly_count = length result.anomalies;
  anomalies = take 8 result.anomalies;
  learning = result.learning;
}

-- What the body of the loop does with the analysis of a task.
unfoldable pub record_analysis : Task → Analysis → LogReport → LogReport
unfolding anomaly_problem finding
record_analysis t result r =
    let s = r.summary in
    let learning = if result.learning then true else s.baseline_learning in
    elim result.anomalies [
      | [] ↦ record r { summary = record s { baseline_learning = learning } }
      | a ∷ more ↦ record r {
        summary = record s {
          tasks_with_anomalies = s.tasks_with_anomalies + 1;
          total_anomalies = s.total_anomalies + length (a ∷ more);
          baseline_learning = learning;
        };
        log_findings = r.log_findings ++ finding t result ∷ [];
        problems =
            if result.learning then r.problems else r.problems ++ anomaly_problem t (a ∷ more) ∷ [];
      }
    ]

unfoldable pub logs_api : String → LogReport → LogReport
logs_api exc r = record r {
  problems = r.problems ++ problem "nomad-logs" medium "logs/api" (unable exc) ∷ [];
}

-- The time of an analysis and the answers to the two fetches of a task.
pub record Fetch : Type 0 where
  pub now : ℕ
  pub stderr : Reply (ℕ × String)
  pub stdout : Reply (ℕ × String)

module _ (py : Texts) (limits : Limits) where
  unfoldable pub scan_text : Task → ℕ → String → String → LogReport → LogReport
  unfolding record_analysis task_key
  scan_text t now stderr stdout r =
      let (result, baselines) = analyze py limits now (task_key t) stderr stdout r.baselines in
      record_analysis t result (record r { baselines = baselines })

  -- `for entry in allocs`; `fetch` tells what the fetches of a task meet.
  unfoldable pub scan_loop : (Task → Fetch) → List Task → LogReport → LogReport
  unfolding fetched scan_text logs_api
  scan_loop fetch [] r = r
  scan_loop fetch (t ∷ tasks) r =
      let s = r.summary in
      let counted : LogReport = record r {
        summary = record s { tasks_scanned = s.tasks_scanned + 1 };
      } in
      elim (fetched (fetch t).stderr) [
        | raises exc ↦ logs_api exc counted
        | returns stderr ↦ elim (fetched (fetch t).stdout) [
          | raises exc ↦ logs_api exc counted
          | returns stdout ↦ scan_loop fetch tasks (scan_text t (fetch t).now stderr stdout counted)
        ]
      ]

  abbrev pub no_logs : Baselines → LogReport
  no_logs baselines = record {
    summary = record {
      tasks_scanned = 0;
      tasks_with_anomalies = 0;
      total_anomalies = 0;
      baseline_learning = false;
    };
    log_findings = [];
    problems = [];
    baselines = baselines;
  }

  abbrev pub scan_tasks : (Task → Fetch) → Reply (List Task) → Baselines → LogReport
  scan_tasks fetch (raises exc) baselines = logs_api exc (no_logs baselines)
  scan_tasks fetch (returns tasks) baselines = scan_loop fetch tasks (no_logs baselines)

  abbrev pub listed : Reply (List Alloc) → Reply (List Task)
  listed (raises exc) = raises exc
  listed (returns allocs) = running_tasks allocs

  -- `check_nomad_logs`, of the address, the listing of the running allocations, and the fetches.
  unfoldable pub check_nomad_logs :
      String → Reply (List Alloc) → (Task → Fetch) → Baselines → LogReport
  unfolding running_tasks scan_loop logs_api
  check_nomad_logs nomad_addr allocs fetch baselines =
      if nomad_addr == "" then no_logs baselines else scan_tasks fetch (listed allocs) baselines
