-- ===== src/Dashboard.antt =====
-- infrastructure/security-dashboard/app.py: the statistics over the security agent's reports.
pub mod Sums
pub mod Pages
use jim_tf.Base.{
  ℕ, ◌+◌, ◌-◌, String, Option, none, some, Bool, true, false, List, [], ◌∷◌, ◌++◌, keep, length,
  take, Dict, lookup, insert, get_or, leb, string_key, ◌==◌, if◌then◌else◌,
}
use jim_tf.Agent.Detect.{text_is}

-- What is read of an incident: its severity. The other fields are passed on, as `title` is here.
pub record Incident : Type 0 where
  pub severity : Option String
  pub title : Option String

pub record Loaded : Type 0 where
  pub status : Option String
  pub flows_analyzed : ℕ
  pub incidents : List Incident
  pub timestamp : String

-- An incident with the `report_timestamp` that is added to it.
pub record Dated : Type 0 where
  pub incident : Incident
  pub report_timestamp : String

pub record Stats : Type 0 where
  pub total_runs : ℕ
  pub clean_runs : ℕ
  pub alert_runs : ℕ
  pub total_flows : ℕ
  pub severity_counts : Dict String ℕ
  pub recent_incidents : List Dated

-- The variables of the loop.
pub record Tally : Type 0 where
  pub total_flows : ℕ
  pub severity_counts : Dict String ℕ
  pub all_incidents : List Dated

abbrev pub no_counts : Dict String ℕ
no_counts = ("CRITICAL", 0) ∷ ("HIGH", 0) ∷ ("MEDIUM", 0) ∷ ("LOW", 0) ∷ ("INFO", 0) ∷ []

module _ (upper : String → String) (severity_rank : Dict String ℕ) where
  -- `inc.get("severity", "INFO").upper()`
  unfoldable pub severity_key : Incident → String
  severity_key inc = upper (get_or inc.severity "INFO")

  -- `for inc in report…get("incidents", [])`
  unfoldable pub incident_loop : String → List Incident → Tally → Tally
  unfolding severity_key
  incident_loop timestamp [] t = t
  incident_loop timestamp (inc ∷ incidents) t =
      let sev = severity_key inc in
      incident_loop timestamp incidents (record {
        total_flows = t.total_flows;
        severity_counts =
            insert sev (get_or (lookup sev t.severity_counts) 0 + 1) t.severity_counts;
        all_incidents =
            t.all_incidents ++ record { incident = inc; report_timestamp = timestamp } ∷ [];
      })

  -- `for report in reports_data`
  unfoldable pub report_loop : List Loaded → Tally → Tally
  unfolding incident_loop
  report_loop [] t = t
  report_loop (report ∷ reports) t = report_loop reports (
      incident_loop report.timestamp report.incidents
        (record t { total_flows = t.total_flows + report.flows_analyzed }))

  unfoldable pub incident_rank : Dated → ℕ
  unfolding severity_key
  incident_rank i = get_or (lookup (severity_key i.incident) severity_rank) 0

  -- `sorted(…, reverse=True)`, which is stable too.
  unfoldable pub insert_by_rank : Dated → List Dated → List Dated
  unfolding incident_rank
  insert_by_rank i [] = i ∷ []
  insert_by_rank i (j ∷ js) =
      let rest = insert_by_rank i js in
      if leb (incident_rank j) (incident_rank i) then i ∷ j ∷ js else j ∷ rest

  unfoldable pub sort_by_rank : List Dated → List Dated
  unfolding insert_by_rank
  sort_by_rank [] = []
  sort_by_rank (i ∷ is) = insert_by_rank i (sort_by_rank is)

  unfoldable pub compute_stats : List Loaded → Stats
  unfolding report_loop sort_by_rank
  compute_stats reports_data =
      let clean_runs = length (keep (λ (r : Loaded). text_is "clean" r.status) reports_data) in
      let t =
        report_loop reports_data
          (record { total_flows = 0; severity_counts = no_counts; all_incidents = [] }) in
      record {
        total_runs = length reports_data;
        clean_runs = clean_runs;
        alert_runs = length reports_data - clean_runs;
        total_flows = t.total_flows;
        severity_counts = t.severity_counts;
        recent_incidents = take 50 (sort_by_rank t.all_incidents);
      }
