-- ===== src/Pipeline.antt =====
-- From infrastructure/code/process.py to infrastructure/nomad/scripts/persist.py: what the persist
-- worker reads of an entry that the receiver thread has sent.
pub mod Rows
pub mod Reported
pub mod Requests
use jim_tf.Base.{ℕ, ◌≡◌, refl, String, some, List, Conversions, IsExact, IsExactList, get_or, arith}
use jim_tf.Base.Int.{sub_ℕ}
use jim_tf.Sqs.{Message, SendEntry, DeleteEntry, string_value}
use jim_tf.Process.{int_attribute, result_attributes, build_entry}
use jim_tf.Persist.Uuid.{uuid7}
use jim_tf.Persist.Parse.{Reading, Parsed, present, int_if, parse_message}

-- The message that the queue makes of an entry.
abbrev pub queued : SendEntry → String → String → String → Message
queued e message_id receipt_handle sent_timestamp = record {
  message_id = message_id;
  receipt_handle = receipt_handle;
  sent_timestamp = sent_timestamp;
  attributes = e.attributes;
}

module _ (c : Conversions) where
  int_if-str : (n : ℕ) → IsExact c n → int_if c (some (c.str n)) ≡ some (some n)
  unfolding int_if
  int_if-str n h = ground arith

  module _ (m : Message) (l : List ℕ) (factor scheme sent_time factor_time pulled_time : ℕ) where
    abbrev pub AttributesOf : SendEntry → Type 0
    AttributesOf e =
        e.attributes ≡ result_attributes c m l factor_time pulled_time factor scheme sent_time

    -- The row that the receiver's entry is meant to become.
    abbrev pub stored : String → Reading → Parsed
    stored receipt now = record {
      sequence = uuid7 sent_time now.rand_a now.rand_b;
      row = record {
        factor = factor;
        result = l;
        scheme = scheme;
        ms = now.elapsed_ms;
        queue_to_db_ms = now.elapsed_ms;
        pulled_at_ms = now.pulled_at_ms;
        persisted_at_ms = now.persisted_at_ms;
        pull_to_persist_ms = sub_ℕ now.persisted_at_ms pulled_time;
        runtime = get_or (string_value "Runtime" m) "python";
        factor_time_ms = some factor_time;
        sequence_raw = present (some m.message_id);
        sent_time = some (c.str sent_time);
        sent_to_persist_ms = some (sub_ℕ now.stored_at_ms sent_time);
        pulled_time = some (c.str pulled_time);
      };
      receipt = receipt;
      scheme = c.str scheme;
      ts_ms = now.stored_at_ms;
    }

    -- What `parse_message` makes of an entry with these attributes.
    pub parse_attributes :
        (e : SendEntry) (message_id receipt sent_timestamp : String) (process_time : ℕ)
        (now : Reading)
        → AttributesOf e
        → IsExact c factor
        → IsExact c scheme
        → IsExact c sent_time
        → IsExact c factor_time
        → IsExact c pulled_time
        → IsExactList c l
        → c.int sent_timestamp ≡ some process_time
        → parse_message c (queued e message_id receipt sent_timestamp) now
          ≡ some (stored receipt now)
    unfolding parse_message string_value result_attributes
    parse_attributes e message_id receipt sent_timestamp process_time now ha hf hs ht hft hp hl hq =
        rw (
          ha,
          hq,
          hs.int_str,
          hl,
          int_if-str pulled_time hp,
          hf.int_str,
          int_if-str factor_time hft,
          int_if-str sent_time ht,
          ht.str_filled,
          hp.str_filled,
        )

    -- A message whose factor, scheme and time are numbers makes a result entry, and the persist
    -- worker, given that entry by the result queue, parses it: the row has the factor, the scheme,
    -- the list of factors, the runtime and the measured times, its identifier starts with the time
    -- at which the first message was sent, and the summary's time is the last reading. It is assumed
    -- that Python reads back each number and the list as it printed them.
    pub parse_message-build_entry :
        (index : ℕ) (message_id receipt sent_timestamp : String) (process_time : ℕ) (now : Reading)
        → int_attribute c "Factor" m ≡ some factor
        → int_attribute c "Scheme" m ≡ some scheme
        → c.int m.sent_timestamp ≡ some sent_time
        → IsExact c factor
        → IsExact c scheme
        → IsExact c sent_time
        → IsExact c factor_time
        → IsExact c pulled_time
        → IsExactList c l
        → c.int sent_timestamp ≡ some process_time
        → (e : SendEntry) × (d : DeleteEntry) × (build_entry c index m l factor_time pulled_time
            ≡ some (e, d))
          × (d.receipt_handle ≡ m.receipt_handle)
          × (parse_message c (queued e message_id receipt sent_timestamp) now
              ≡ some (stored receipt now))
    parse_message-build_entry index message_id receipt sent_timestamp process_time now ef es et hf
          hs ht hft hp hl hq =
        let e : SendEntry = record {
          id = c.str index;
          delay_seconds = 0;
          attributes = result_attributes c m l factor_time pulled_time factor scheme sent_time;
          body = "Factor";
        } in
        let d : DeleteEntry = record { id = c.str index; receipt_handle = m.receipt_handle } in
        (
          e,
          d,
          (unfold build_entry in rw (ef, es, et)),
          refl,
          parse_attributes e message_id receipt sent_timestamp process_time now refl hf hs ht hft hp
              hl hq,
        )
