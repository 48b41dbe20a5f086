-- ===== src/Observe.antt =====
-- infrastructure/observability-dashboard/app.py: what its checks report, and the text of a report's
-- parts. Times are counted in ticks.
pub mod Alerts
pub mod Services
pub mod FactorTs
pub mod Nomad
pub mod Kubernetes
pub mod Logs
pub mod Rounds
pub mod Collect
use jim_tf.Base.{ℕ, String, Bool, true, false, Option, none, List}
use Prim.Native.String.{◌++◌}

pub data Severity : Type 0 where
  critical high medium low info : Severity

-- The sample of an anomaly in a log: a line, or the line count and the counts before it with their
-- number, whose average the text shows.
pub data Sample : Type 0 where
  line : String → Sample
  volumes : ℕ → ℕ → ℕ → Sample

-- The texts that are sent and shown, with the values that an f-string puts in. Where the text holds
-- an exception, the exception's text is the argument.
pub data Text : Type 0 where
  queue_critical queue_elevated : ℕ → Text
  unable : String → Text
  status_is : String → Text
  alarm_reason : String → Text
  plain : String → Text
  named : String → String → Text
  replicas : ℕ → ℕ → Text
  restarts : ℕ → Text
  http_status : ℕ → Text
  log_anomaly : Bool → ℕ → ℕ → Sample → Text

-- `timestamp` is not set before `_stamp_problems`.
pub record Problem : Type 0 where
  pub source : String
  pub severity : Severity
  pub component : String
  pub message : Text
  pub timestamp : Option ℕ

abbrev pub severity_text : Severity → String
severity_text critical = "CRITICAL"
severity_text high = "HIGH"
severity_text medium = "MEDIUM"
severity_text low = "LOW"
severity_text info = "INFO"

-- `p["severity"] in ("CRITICAL", "HIGH")`
unfoldable pub is_serious : Severity → Bool
is_serious critical = true
is_serious high = true
is_serious _ = false

-- f"{p['source']}:{p['component']}:{p['severity']}"
unfoldable pub alert_key : Problem → String
alert_key p = p.source ++ (":" ++ (p.component ++ (":" ++ severity_text p.severity)))

-- What a call of a service gives: an exception, by its text, or an answer.
pub data Reply {ℓ} (A : Type ℓ) : Type ℓ where
  raises : String → Reply A
  returns : A → Reply A

-- A problem as the checks make it.
abbrev pub problem : String → Severity → String → Text → Problem
problem source severity component message = record {
  source = source;
  severity = severity;
  component = component;
  message = message;
  timestamp = none;
}
