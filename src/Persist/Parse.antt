-- ===== src/Persist/Parse.antt =====
-- `_parse_message`: from a queue message to the row that is stored.
use jim_tf.Base.{ℕ, String, Option, none, some, List, Conversions, ◌>>=◌, get_or, if◌then◌else◌}
use jim_tf.Base.Int.{ℤ, sub_ℕ}
use text.Mathlib.Text.{◌==◌}
use jim_tf.Sqs.{Message, string_value}
use jim_tf.Persist.Uuid.{uuid7}

-- The clock's readings and the random fields of one call.
pub record Reading : Type 0 where
  pub pulled_at_ms : ℕ
  pub elapsed_ms : ℕ
  pub persisted_at_ms : ℕ
  pub stored_at_ms : ℕ
  pub rand_a : ℕ
  pub rand_b : ℕ

-- The dictionary `data`; a key that is set under a condition only is an option.
pub record RowData : Type 0 where
  pub factor : ℕ
  pub result : List ℕ
  pub scheme : ℕ
  pub ms : ℕ
  pub queue_to_db_ms : ℕ
  pub pulled_at_ms : ℕ
  pub persisted_at_ms : ℕ
  pub pull_to_persist_ms : ℤ
  pub runtime : String
  pub factor_time_ms : Option ℕ
  pub sequence_raw : Option String
  pub sent_time : Option String
  pub sent_to_persist_ms : Option ℤ
  pub pulled_time : Option String

-- The tuple that is returned. The identifier is its number, and `data` is not yet text.
pub record Parsed : Type 0 where
  pub sequence : ℕ
  pub row : RowData
  pub receipt : String
  pub scheme : String
  pub ts_ms : ℕ

-- `raw` as a condition: neither missing nor empty.
unfoldable pub present : Option String → Option String
present none = none
present (some t) = if t == "" then none else some t

module _ (c : Conversions) where
  -- `raw and raw.isdigit()`, with the text that the condition is about.
  unfoldable pub digits_only : Option String → Option String
  unfolding present
  digits_only raw = do t ← present raw; if c.is_digit t then some t else none

  -- `int(raw)` under the condition `raw and raw.isdigit()`.
  unfoldable pub int_if : Option String → Option (Option ℕ)
  unfolding digits_only
  int_if raw = elim (digits_only raw) [ none ↦ some none | some t ↦ do n ← c.int t; some (some n) ]

  unfoldable pub since : ℕ → Option ℕ → Option ℤ
  since now none = none
  since now (some n) = some (sub_ℕ now n)

  unfoldable pub parse_message : Message → Reading → Option Parsed
  unfolding int_if since
  parse_message message now = do
    process_time ← c.int message.sent_timestamp
    scheme ← (do t ← string_value "Scheme" message; c.int t)
    let sequence_raw = string_value "Sequence" message
    let sent_time_raw = string_value "SentTime" message
    let pulled_time_raw = string_value "PulledTime" message
    result ← (do t ← string_value "Result" message; c.literal_eval t)
    pulled_time ← int_if pulled_time_raw
    factor ← (do t ← string_value "Factor" message; c.int t)
    factor_time ← int_if (string_value "FactorTime" message)
    sent_time ← int_if sent_time_raw
    let row : RowData = record {
      factor = factor;
      result = result;
      scheme = scheme;
      ms = now.elapsed_ms;
      queue_to_db_ms = now.elapsed_ms;
      pulled_at_ms = now.pulled_at_ms;
      persisted_at_ms = now.persisted_at_ms;
      pull_to_persist_ms =
          get_or (since now.persisted_at_ms pulled_time)
            (sub_ℕ now.persisted_at_ms now.pulled_at_ms);
      runtime = get_or (string_value "Runtime" message) "python";
      factor_time_ms = factor_time;
      sequence_raw = present sequence_raw;
      sent_time = present sent_time_raw;
      sent_to_persist_ms = since now.stored_at_ms sent_time;
      pulled_time = present pulled_time_raw;
    }
    some (record {
      sequence = uuid7 (get_or sent_time process_time) now.rand_a now.rand_b;
      row = row;
      receipt = message.receipt_handle;
      scheme = c.str scheme;
      ts_ms = elim sent_time [ none ↦ now.persisted_at_ms | some _ ↦ now.stored_at_ms ];
    })
