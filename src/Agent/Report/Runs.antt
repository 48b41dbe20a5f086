-- ===== src/Agent/Report/Runs.antt =====
-- Every run: what it saves and whether it publishes.
use jim_tf.Base.{
  ℕ, ◌≤◌, ◌≡◌, ◌≢◌, ◌↔◌, ◌++◌, sym, refl, String, Option, none, some, true, List, [], ◌∷◌, map,
  keep, length, take, arith, string_key,
}
use jim_tf.Agent.{
  Flow, Alert, high_drop_rate, unexpected_egress, cross_namespace_traffic, suspicious_dns,
  port_scan,
}
use mathlib.Core.Path.{subst}
use jim_tf.Agent.Detect.{
  text_is, detect_drops, detect_unexpected_egress, detect_cross_namespace, detect_suspicious_dns,
  detect_port_scan,
}
use jim_tf.Agent.Report.{
  Incident, Summary, no_logs, no_records, no_anomalies, Analysis, Correlated, unavailable,
  malformed, analysed, clean, alert, Saved, Notice, Run, Python, rank, rule_severity,
  max_severity_from, detect_all, fallback_incident, fallback, is_actionable, clean_run, conclude,
  main,
}
use jim_tf.Agent.Report.Severities.{severity_of, max_severity-IsHighest}

-- `str.upper` on the four severities of the rules.
pub record IsUpper (upper : String → String) : Type 0 where
  pub low : upper "low" ≡ "LOW"
  pub medium : upper "medium" ≡ "MEDIUM"
  pub high : upper "high" ≡ "HIGH"
  pub critical : upper "critical" ≡ "CRITICAL"

module _ (py : Python) where
  -- The alerts of the five detectors on the flows; there are none where there are no keys.
  abbrev pub alerts_of : List String → List Flow → List Alert
  alerts_of [] flows = []
  alerts_of (_ ∷ _) flows =
      detect_drops flows
      ++ detect_unexpected_egress py.set_order flows
      ++ detect_cross_namespace flows
      ++ detect_suspicious_dns py.lower flows
      ++ detect_port_scan flows

  -- One report is saved, with these alerts, which is clean if there are none; a notice is published if
  -- an incident of the report is actionable.
  pub record IsReported (alerts : List Alert) (run : Run) : Type 0 where
    pub saved : Saved
    pub once : run.saved ≡ saved ∷ []
    pub found : saved.raw_alerts ≡ alerts
    pub clean_iff : (saved.status ≡ clean) ↔ (alerts ≡ [])
    pub silent_iff : (run.published ≡ []) ↔ (keep (is_actionable py) saved.analysis.incidents ≡ [])

  clean_run-IsReported : (summary : Summary) (n : ℕ) → IsReported [] (clean_run py summary n)
  unfolding clean_run
  clean_run-IsReported summary n = record {
    saved = record {
      status = clean;
      max_severity = none;
      flows_analyzed = n;
      raw_alerts = [];
      analysis = record { summary = summary; incidents = [] };
    };
    once = refl;
    found = refl;
    clean_iff = (λ h. refl, λ h. refl);
    silent_iff = (λ h. refl, λ h. refl);
  }

  conclude-IsReported :
      (n : ℕ) (a : Alert) (more : List Alert) (analysis : Analysis)
      → IsReported (a ∷ more) (conclude py n (a ∷ more) analysis)
  unfolding conclude
  conclude-IsReported n a more analysis = record {
    saved = record {
      status = alert;
      max_severity = some (max_severity_from "INFO" analysis.incidents);
      flows_analyzed = n;
      raw_alerts = a ∷ more;
      analysis = analysis;
    };
    once = refl;
    found = refl;
    clean_iff = (λ h. cc, λ h. cc);
    silent_iff = by_actionable (keep (is_actionable py) analysis.incidents);
  }
    where
      notice : Notice
      notice = record {
        max_severity = max_severity_from "INFO" analysis.incidents;
        raw_alert_count = length (a ∷ more);
        analysis = analysis;
      }

      notices : List Incident → List Notice
      notices [] = []
      notices (_ ∷ _) = notice ∷ []

      by_actionable : (l : List Incident) → (notices l ≡ []) ↔ (l ≡ [])
      by_actionable [] = (λ h. refl, λ h. refl)
      by_actionable (i ∷ l) = (λ h. cc, λ h. cc)

  main-on_alerts :
      (key : String) (keys : List String) (f : Flow) (fs : List Flow)
      (correlate : List Alert → Correlated) (alerts : List Alert)
      → detect_all py (f ∷ fs) ≡ alerts
      → correlate alerts ≢ malformed
      → (run : Run) × (main py (key ∷ keys) (f ∷ fs) correlate ≡ some run) × IsReported alerts run
  unfolding main
  main-on_alerts key keys f fs correlate [] e usable = (
    clean_run py (no_anomalies (length (f ∷ fs))) (length (f ∷ fs)),
    (rw (e, main) refl),
    clean_run-IsReported (no_anomalies (length (f ∷ fs))) (length (f ∷ fs)),
  )
  main-on_alerts key keys f fs correlate (a ∷ more) e usable = by_answer (correlate (a ∷ more)) refl
    where
      by_answer :
          (r : Correlated)
          → correlate (a ∷ more) ≡ r
          → (run : Run) × (main py (key ∷ keys) (f ∷ fs) correlate ≡ some run)
            × IsReported (a ∷ more) run
      by_answer unavailable u = (
        conclude py (length (f ∷ fs)) (a ∷ more) (fallback py (a ∷ more)),
        (rw (e, main, u) refl),
        conclude-IsReported (length (f ∷ fs)) a more (fallback py (a ∷ more)),
      )
      by_answer malformed u = absurd (usable u)
      by_answer (analysed analysis) u = (
        conclude py (length (f ∷ fs)) (a ∷ more) analysis,
        (rw (e, main, u) refl),
        conclude-IsReported (length (f ∷ fs)) a more analysis,
      )

  no_flows : (key : String) (keys : List String) → alerts_of (key ∷ keys) [] ≡ []
  unfolding detect_drops detect_unexpected_egress detect_cross_namespace detect_suspicious_dns
      detect_port_scan
  no_flows key keys = refl

  pub main-IsReported :
      (keys : List String) (flows : List Flow) (correlate : List Alert → Correlated)
      → correlate (alerts_of keys flows) ≢ malformed
      → (run : Run) × (main py keys flows correlate ≡ some run)
        × IsReported (alerts_of keys flows) run
  unfolding main detect_all
  main-IsReported [] flows correlate usable =
      (clean_run py no_logs 0, refl, clean_run-IsReported no_logs 0)
  main-IsReported (k ∷ ks) [] correlate usable = (
    clean_run py no_records 0,
    refl,
    subst (λ l. IsReported l (clean_run py no_records 0)) (sym (no_flows k ks))
        (clean_run-IsReported no_records 0),
  )
  main-IsReported (k ∷ ks) (f ∷ fs) correlate usable =
      main-on_alerts k ks f fs correlate (alerts_of (k ∷ ks) (f ∷ fs)) refl usable

  -- On JSON of another form, a run that has alerts ends with an exception.
  main_malformed :
      (key : String) (keys : List String) (f : Flow) (fs : List Flow)
      (correlate : List Alert → Correlated) (a : Alert) (more : List Alert)
      → detect_all py (f ∷ fs) ≡ a ∷ more
      → correlate (a ∷ more) ≡ malformed
      → main py (key ∷ keys) (f ∷ fs) correlate ≡ none
  unfolding main
  main_malformed key keys f fs correlate a more e u = rw (e, main, u) refl

  fallback_rank : (a : Alert) → IsUpper py.upper → 1 ≤ rank (severity_of (fallback_incident py a))
  unfolding fallback_incident rule_severity rank
  fallback_rank (high_drop_rate _ _ _ _ _) u = rw u.medium (omega arith)
  fallback_rank (unexpected_egress _ _ _) u = rw u.high (omega arith)
  fallback_rank (cross_namespace_traffic _ _ _) u = rw u.low (omega arith)
  fallback_rank (suspicious_dns _ _) u = rw u.critical (omega arith)
  fallback_rank (port_scan _ _ _) u = rw u.high (omega arith)

  fallback_actionable :
      (a : Alert) → IsUpper py.upper → is_actionable py (fallback_incident py a) ≡ true
  unfolding is_actionable fallback_incident rule_severity text_is
  fallback_actionable (high_drop_rate _ _ _ _ _) u = rw u.medium
  fallback_actionable (unexpected_egress _ _ _) u = rw u.high
  fallback_actionable (cross_namespace_traffic _ _ _) u = rw u.low
  fallback_actionable (suspicious_dns _ _) u = rw u.critical
  fallback_actionable (port_scan _ _ _) u = rw u.high

  -- A run ends, and its notice is about these alerts, and its severity is above "INFO".
  abbrev pub Warns : List Alert → Option Run → Type 0
  Warns alerts result =
      (run : Run) × (notice : Notice) × (result ≡ some run)
      × (run.published ≡ notice ∷ [])
      × (notice.raw_alert_count ≡ length alerts)
      × (1 ≤ rank notice.max_severity)
      × (notice.analysis ≡ fallback py alerts)

  conclude-Warns :
      (n : ℕ) (a : Alert) (more : List Alert)
      → IsUpper py.upper
      → Warns (a ∷ more) (some (conclude py n (a ∷ more) (fallback py (a ∷ more))))
  unfolding conclude fallback
  conclude-Warns n a more u =
      let incidents : List Incident =
        fallback_incident py a ∷ map (fallback_incident py) (take 9 more) in
      let h = fallback_actionable a u in
      (
        conclude py n (a ∷ more) (fallback py (a ∷ more)),
        record {
          max_severity = max_severity_from "INFO" incidents;
          raw_alert_count = length (a ∷ more);
          analysis = fallback py (a ∷ more);
        },
        refl,
        (rw (h, conclude) refl),
        refl,
        (let t = fallback_rank a u in
            let m = max_severity-IsHighest incidents in omega (arith, t, m.0.0)),
        refl,
      )

  -- If there are flows that raise alerts, and the language model cannot be reached, a notice with the
  -- fallback's incidents is published, and its severity is above "INFO", given that `upper` is right
  -- on the four severities of the rules.
  pub main_unassisted :
      (key : String) (keys : List String) (f : Flow) (fs : List Flow)
      (correlate : List Alert → Correlated) (a : Alert) (more : List Alert)
      → IsUpper py.upper
      → detect_all py (f ∷ fs) ≡ a ∷ more
      → correlate (a ∷ more) ≡ unavailable
      → Warns (a ∷ more) (main py (key ∷ keys) (f ∷ fs) correlate)
  unfolding main
  main_unassisted key keys f fs correlate a more u found failed =
      rw (found, main, failed) (conclude-Warns (length (f ∷ fs)) a more u)
