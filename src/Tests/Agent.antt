-- ===== src/Tests/Agent.antt =====
-- An example for a run of the security agent.
use jim_tf.Base.{
  ◌≡◌, refl, String, none, some, List, [], ◌∷◌, keep, ◌≢◌, string_key, pair_key, ◌==◌,
  if◌then◌else◌, arith,
}
use jim_tf.Agent.{Alert}
use jim_tf.Agent.Exact.{was_dropped}
use jim_tf.Agent.Report.{Run, unavailable, malformed}
use jim_tf.Agent.Storage.{
  recent_of, recent_keys, hours_loop, list_recent_s3_keys, Reader, read_lines, body_of, read_key,
  read_loop, read_flows_from_s3,
}
use jim_tf.Agent.Program.{ended, Setting, correlate_with_llm, program}
use jim_tf.Agent.Program.Detects.{Reports, program-Reports}
use jim_tf.Tests.Flows.{miner, web_to_bank, python}

-- A log of five lines with the same flow, and a last line that is cut off.
abbrev reader : Reader
reader = record {
  get_object = λ key. if key == "log.gz" then some "packed" else none;
  ends_with = λ key suffix. key == "log.gz";
  decompress = λ body. some "lines";
  lines = λ body. "f" ∷ "f" ∷ "" ∷ "f" ∷ "f" ∷ "f" ∷ "cut" ∷ "f" ∷ [];
  strip = λ t. t;
  loads = λ t. if t == "f" then some miner else none;
}

abbrev setting : Setting
setting = record {
  hour = 60;
  hour_text = λ t. "h";
  prefix = "logs/";
  lookback = 20;
  cluster = "factors";
  python = python;
  list_objects = λ prefix. some (
      (record { key = "log.gz"; last_modified = 100 }
        ∷ record { key = "old"; last_modified = 1 }
        ∷ record { key = "gone"; last_modified = 90 }
        ∷ [])
      ∷ []);
  reader = reader;
  model = record { dumps = λ alerts. "[]"; invoke = λ t. none; loads = λ t. unavailable };
}

abbrev keys : List String
keys = "log.gz" ∷ "gone" ∷ []

-- The call of the language model raises.
unanswered : (alerts : List Alert) → correlate_with_llm "factors" setting.model alerts ≢ malformed
unfolding correlate_with_llm
unanswered [] e = cc
unanswered (a ∷ alerts) e = cc

program-Reports_example :
    (run : Run) × (program setting 110 3 ≡ ended run)
    × Reports web_to_bank (keep (was_dropped web_to_bank) (read_flows_from_s3 reader keys)) run
unfolding list_recent_s3_keys hours_loop recent_keys recent_of read_flows_from_s3 read_loop read_key
    body_of read_lines
program-Reports_example =
    program-Reports setting 110 3 keys web_to_bank refl (omega arith) (unanswered _)
