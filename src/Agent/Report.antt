-- ===== src/Agent/Report.antt =====
-- `main`: the report that a run saves and the notice that it publishes.
pub mod Severities
pub mod Runs
use jim_tf.Base.{
  ℕ, String, Option, none, some, Bool, true, false, not, List, [], ◌∷◌, ◌++◌, map, keep, length,
  take, Dict, lookup, get_or, ltb, string_key, if◌then◌else◌,
}
use jim_tf.Agent.{
  Flow, Alert, high_drop_rate, unexpected_egress, cross_namespace_traffic, suspicious_dns,
  port_scan,
}
use jim_tf.Agent.Detect.{
  text_is, detect_drops, detect_unexpected_egress, detect_cross_namespace, detect_suspicious_dns,
  detect_port_scan,
}

-- An incident of an analysis, of the language model's or of the fallback's.
pub record Incident : Type 0 where
  pub title : Option String
  pub severity : Option String
  pub threat_type : Option String
  pub description : Option String
  pub affected_workloads : List String
  pub recommendation : Option String

-- The summary's text is one of the source's, with its number, or the language model's.
pub data Summary : Type 0 where
  no_logs no_records : Summary
  no_anomalies unassisted : ℕ → Summary
  written : Option String → Summary

pub record Analysis : Type 0 where
  pub summary : Summary
  pub incidents : List Incident

-- What `correlate_with_llm` gives: nothing, an analysis, or JSON of another form, on which `main` raises
-- an exception before it saves the report. JSON that only the text of the notice cannot be made of,
-- which raises after the report is saved, is outside the model.
pub data Correlated : Type 0 where
  unavailable malformed : Correlated
  analysed : Analysis → Correlated

pub data Status : Type 0 where
  clean alert : Status

pub record Saved : Type 0 where
  pub status : Status
  pub max_severity : Option String
  pub flows_analyzed : ℕ
  pub raw_alerts : List Alert
  pub analysis : Analysis

-- What `publish_to_sns` sends, by the values that its subject and its body are made of.
pub record Notice : Type 0 where
  pub max_severity : String
  pub raw_alert_count : ℕ
  pub analysis : Analysis

pub record Run : Type 0 where
  pub saved : List Saved
  pub published : List Notice

-- `lower` and `upper` of a text, the order in which Python lists a set, and `json.dumps` of an alert.
pub record Python : Type 0 where
  pub lower : String → String
  pub upper : String → String
  pub set_order : List String → List String
  pub dumps : Alert → String

abbrev pub severity_rank : Dict String ℕ
severity_rank = ("INFO", 0) ∷ ("LOW", 1) ∷ ("MEDIUM", 2) ∷ ("HIGH", 3) ∷ ("CRITICAL", 4) ∷ []

-- `severity_rank.get(sev, 0)`
unfoldable pub rank : String → ℕ
rank sev = get_or (lookup sev severity_rank) 0

-- The loop that `main` and `publish_to_sns` share.
unfoldable pub max_severity_from : String → List Incident → String
max_severity_from best [] = best
max_severity_from best (inc ∷ incidents) =
    let sev = get_or inc.severity "INFO" in
    max_severity_from (if ltb (rank best) (rank sev) then sev else best) incidents

-- `a["rule"]`, `a["severity"]` and `a.get("source", "unknown")`.
unfoldable pub rule : Alert → String
rule (high_drop_rate _ _ _ _ _) = "high_drop_rate"
rule (unexpected_egress _ _ _) = "unexpected_egress"
rule (cross_namespace_traffic _ _ _) = "cross_namespace_traffic"
rule (suspicious_dns _ _) = "suspicious_dns"
rule (port_scan _ _ _) = "port_scan"

unfoldable pub rule_severity : Alert → String
rule_severity (high_drop_rate _ _ _ _ _) = "medium"
rule_severity (unexpected_egress _ _ _) = "high"
rule_severity (cross_namespace_traffic _ _ _) = "low"
rule_severity (suspicious_dns _ _) = "critical"
rule_severity (port_scan _ _ _) = "high"

unfoldable pub source_of : Alert → String
source_of (high_drop_rate source _ _ _ _) = source
source_of (unexpected_egress source _ _) = source
source_of (cross_namespace_traffic _ _ _) = "unknown"
source_of (suspicious_dns source _) = source
source_of (port_scan source _ _) = source

module _ (py : Python) where
  unfoldable pub detect_all : List Flow → List Alert
  detect_all flows =
      detect_drops flows
      ++ detect_unexpected_egress py.set_order flows
      ++ detect_cross_namespace flows
      ++ detect_suspicious_dns py.lower flows
      ++ detect_port_scan flows

  unfoldable pub fallback_incident : Alert → Incident
  unfolding rule rule_severity source_of
  fallback_incident a = record {
    title = some (rule a);
    severity = some (py.upper (rule_severity a));
    threat_type = some (rule a);
    description = some (py.dumps a);
    affected_workloads = source_of a ∷ [];
    recommendation = some "Investigate manually";
  }

  unfoldable pub fallback : List Alert → Analysis
  unfolding fallback_incident
  fallback alerts = record {
    summary = unassisted (length alerts);
    incidents = map fallback_incident (take 10 alerts);
  }

  -- `i.get("severity") not in ("INFO",)`
  unfoldable pub is_actionable : Incident → Bool
  is_actionable i = not (text_is "INFO" i.severity)

  unfoldable pub clean_run : Summary → ℕ → Run
  clean_run summary flows_analyzed = record {
    saved =
        record {
          status = clean;
          max_severity = none;
          flows_analyzed = flows_analyzed;
          raw_alerts = [];
          analysis = record { summary = summary; incidents = [] };
        }
        ∷ [];
    published = [];
  }

  -- `main` from the analysis on.
  unfoldable pub conclude : ℕ → List Alert → Analysis → Run
  unfolding is_actionable
  conclude flows_analyzed alerts analysis = record {
    saved =
        record {
          status = alert;
          max_severity = some (max_severity_from "INFO" analysis.incidents);
          flows_analyzed = flows_analyzed;
          raw_alerts = alerts;
          analysis = analysis;
        }
        ∷ [];
    published = elim (keep is_actionable analysis.incidents) [
      | [] ↦ []
      | _ ∷ _ ↦
          record {
            max_severity = max_severity_from "INFO" analysis.incidents;
            raw_alert_count = length alerts;
            analysis = analysis;
          }
          ∷ []
    ];
  }

  -- `main`, of the keys in the lookback window, the flows read from them, and what the language model
  -- answers to a list of alerts; `none` is an exception.
  unfoldable pub main : List String → List Flow → (List Alert → Correlated) → Option Run
  unfolding clean_run conclude
  main [] flows correlate = some (clean_run no_logs 0)
  main (_ ∷ _) [] correlate = some (clean_run no_records 0)
  main (_ ∷ _) (f ∷ fs) correlate = elim (detect_all (f ∷ fs)) [
    | [] ↦ some (clean_run (no_anomalies (length (f ∷ fs))) (length (f ∷ fs)))
    | a ∷ more ↦
        let alerts = a ∷ more in
        elim (correlate alerts) [
          | unavailable ↦ some (conclude (length (f ∷ fs)) alerts (fallback alerts))
          | malformed ↦ none
          | analysed analysis ↦ some (conclude (length (f ∷ fs)) alerts analysis)
        ]
  ]
