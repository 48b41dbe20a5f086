-- ===== src/Agent/Program.antt =====
-- The agent as a whole: the question to the language model, the text of the notice, and a run from the
-- listing of the logs on.
pub mod Detects
use jim_tf.Base.{
  ℕ, suc, ◌+◌, String, Option, none, some, List, [], ◌∷◌, ◌++◌, length, get_or, join, text_of,
}
use Prim.Native.String.{◌++◌ as ◌then◌}
use jim_tf.Agent.{Alert}
use jim_tf.Agent.Storage.{
  Listing, Listed, listed, raised, unfinished, list_recent_s3_keys, Reader, read_flows_from_s3,
}
use jim_tf.Agent.Report.{
  Incident, Summary, no_logs, no_records, no_anomalies, unassisted, written, Correlated,
  unavailable, Notice, Run, Python, main,
}

-- ANALYSIS_PROMPT, filled in.
unfoldable pub prompt : String → String → String
prompt cluster alerts_json = text_of (
    "You are a Kubernetes network security analyst. Analyze the following anomalous "
    ∷ "Cilium Hubble flow events from cluster \"" ∷ cluster
    ∷ "\" and produce a concise security assessment.\n\n" ∷ "For each group of related alerts:\n"
    ∷ "1. Classify the threat type (lateral movement, data exfiltration, port scan, "
    ∷ "DNS tunneling, policy misconfiguration, crypto mining, etc.)\n"
    ∷ "2. Assign a severity: CRITICAL / HIGH / MEDIUM / LOW / INFO\n"
    ∷ "3. Recommend an immediate action (block, investigate, tune policy, etc.)\n\n"
    ∷ "If nothing looks genuinely malicious, say so — false positives are expected.\n\n"
    ∷ "Alerts (JSON):\n" ∷ alerts_json
    ∷ "\n\nRespond in this exact JSON format (no markdown fences):\n" ∷ "{\n"
    ∷ "  \"summary\": \"1-2 sentence overall assessment\",\n" ∷ "  \"incidents\": [\n" ∷ "    {\n"
    ∷ "      \"title\": \"short title\",\n"
    ∷ "      \"severity\": \"CRITICAL|HIGH|MEDIUM|LOW|INFO\",\n"
    ∷ "      \"threat_type\": \"...\",\n"
    ∷ "      \"description\": \"what happened and why it matters\",\n"
    ∷ "      \"affected_workloads\": [\"namespace/pod\", ...],\n"
    ∷ "      \"recommendation\": \"what to do next\"\n" ∷ "    }\n" ∷ "  ]\n" ∷ "}\n" ∷ [])

-- The calls of the language model and of JSON: `json.dumps` of the alerts, the text of the answer to a
-- prompt, `none` if the call or the reading of its answer raises an exception, and what `json.loads`
-- makes of the text: nothing on an exception or for JSON that is false, an analysis, or JSON of another
-- form, such as a list or incidents that are null.
pub record Model : Type 0 where
  pub dumps : List Alert → String
  pub invoke : String → Option String
  pub loads : String → Correlated

-- `correlate_with_llm`
unfoldable pub correlate_with_llm : String → Model → List Alert → Correlated
unfolding prompt
correlate_with_llm cluster model [] = unavailable
correlate_with_llm cluster model (a ∷ alerts) =
    elim (model.invoke (prompt cluster (model.dumps (a ∷ alerts)))) [
      | none ↦ unavailable
      | some text ↦ model.loads text
    ]

-- `analysis.get("summary", "N/A")`; `str` prints a number.
unfoldable pub summary_text : (ℕ → String) → Summary → String
summary_text str no_logs = "No flow logs in lookback window."
summary_text str no_records = "No flow records could be parsed."
summary_text str (no_anomalies n) =
    text_of ("Analyzed " ∷ str n ∷ " flows — no anomalies detected." ∷ [])
summary_text str (unassisted n) =
    text_of (
      "Rule-based detection found "
      ∷ str n
      ∷ " anomalies but LLM correlation was unavailable."
      ∷ [])
summary_text str (written text) = get_or text "N/A"

-- A value that an f-string puts in, where it may be missing.
abbrev pub or_none : Option String → String
or_none o = get_or o "None"

-- `for i, inc in enumerate(incidents, 1)` in `publish_to_sns`
unfoldable pub incident_lines : (ℕ → String) → ℕ → List Incident → List String
unfolding summary_text
incident_lines str i [] = []
incident_lines str i (inc ∷ incidents) =
    text_of ("--- Incident " ∷ str i ∷ ": " ∷ get_or inc.title "Untitled" ∷ " ---" ∷ [])
    ∷ ("Severity: " then or_none inc.severity)
    ∷ ("Type: " then or_none inc.threat_type)
    ∷ ("Description: " then or_none inc.description)
    ∷ ("Workloads: " then join ", " inc.affected_workloads)
    ∷ ("Action: " then or_none inc.recommendation)
    ∷ ""
    ∷ incident_lines str (i + 1) incidents

unfoldable pub subject : String → Notice → String
subject cluster notice = text_of ("[" ∷ notice.max_severity ∷ "] Cilium Security — " ∷ cluster ∷ [])

-- The body, for the text of the time.
unfoldable pub message : (ℕ → String) → String → String → Notice → String
unfolding incident_lines summary_text
message str cluster time notice = join "\n" (
    ("Cluster: " then cluster)
    ∷ ("Time: " then time)
    ∷ ("Raw alerts analysed: " then str notice.raw_alert_count)
    ∷ ("Summary: " then summary_text str notice.analysis.summary)
    ∷ ""
    ∷ incident_lines str 1 notice.analysis.incidents)

-- A run ends with what it saves and publishes, or with an exception of the listing, or of `main` for an
-- analysis of another form; without enough fuel it does not end.
pub data Ended : Type 0 where
  ended : Run → Ended
  failed running : Ended

-- The settings, the clock, and the services.
pub record Setting : Type 0 where
  pub hour : ℕ
  pub hour_text : ℕ → String
  pub prefix : String
  pub lookback : ℕ
  pub cluster : String
  pub python : Python
  pub list_objects : Listing
  pub reader : Reader
  pub model : Model

-- `main` at the time `now`; the calls that save and publish return.
unfoldable pub program : Setting → ℕ → ℕ → Ended
unfolding list_recent_s3_keys read_flows_from_s3 main correlate_with_llm
program s now fuel =
    elim (list_recent_s3_keys s.hour s.hour_text s.list_objects s.prefix s.lookback now fuel) [
      | raised ↦ failed
      | unfinished ↦ running
      | listed keys ↦
          elim (main s.python keys (read_flows_from_s3 s.reader keys)
            (correlate_with_llm s.cluster s.model)) [ none ↦ failed | some run ↦ ended run ]
    ]
