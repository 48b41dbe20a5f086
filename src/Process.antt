-- ===== src/Process.antt =====
-- infrastructure/code/process.py: a receiver thread, which factors the numbers of a queue and sends
-- the results to another one.
pub mod Loop
pub mod Answers
pub mod Drains
use jim_tf.Base.{
  ℕ, zero, suc, ◌+◌, ◌-◌, ◌≤◌, String, Option, none, some, Bool, true, false, not, List, [], ◌∷◌,
  ◌++◌, map, Dict, contains, keep, length, leb, if◌then◌else◌, get_or, ◌>>=◌, Conversions,
  string_key,
}
use jim_tf.Factor.{do_factor}
use jim_tf.Sqs.{Attribute, Message, SendEntry, DeleteEntry, string_value}

module _ (c : Conversions) where
  -- `int(message["MessageAttributes"][name]["StringValue"])`
  unfoldable pub int_attribute : String → Message → Option ℕ
  int_attribute name m = do text ← string_value name m; c.int text

  -- The attributes of a result entry, in the order of the source.
  unfoldable pub result_attributes : Message → List ℕ → ℕ → ℕ → ℕ → ℕ → ℕ → Dict String Attribute
  result_attributes m factor_list factor_time_ms pulled_time_ms factor scheme sent_time =
      ("Result", record { data_type = "String"; string_value = c.str_list factor_list })
      ∷ ("SentTime", record { data_type = "String"; string_value = c.str sent_time })
      ∷ ("PulledTime", record { data_type = "String"; string_value = c.str pulled_time_ms })
      ∷ ("Sequence", record { data_type = "String"; string_value = m.message_id })
      ∷ ("Factor", record { data_type = "String"; string_value = c.str factor })
      ∷ ("Scheme", record { data_type = "String"; string_value = c.str scheme })
      ∷ ("ms", record { data_type = "Number"; string_value = c.str (pulled_time_ms - sent_time) })
      ∷ ("FactorTime", record { data_type = "Number"; string_value = c.str factor_time_ms })
      ∷ (
        "Runtime",
        record { data_type = "String"; string_value = get_or (string_value "Runtime" m) "python" },
      )
      ∷ []

  -- `_build_entry`; the clock's reading is an argument. `max(0, pulled - sent)` is the subtraction
  -- of natural numbers.
  unfoldable pub build_entry : ℕ → Message → List ℕ → ℕ → ℕ → Option (SendEntry × DeleteEntry)
  unfolding int_attribute result_attributes
  build_entry index m factor_list factor_time_ms pulled_time_ms = do
    factor ← int_attribute "Factor" m
    scheme ← int_attribute "Scheme" m
    sent_time ← c.int m.sent_timestamp
    some (
      record {
        id = c.str index;
        delay_seconds = 0;
        attributes =
            result_attributes m factor_list factor_time_ms pulled_time_ms factor scheme sent_time;
        body = "Factor";
      },
      record { id = c.str index; receipt_handle = m.receipt_handle },
    )

-- A message with the two times that are measured while it is worked on.
pub record Delivery : Type 0 where
  pub message : Message
  pub factor_time_ms : ℕ
  pub pulled_time_ms : ℕ

-- One round of the loop as the queue service answers it: the messages received, the `Id`s under
-- `Failed` of the send (`none` if the call raises), and whether the delete call returns.
pub record Poll : Type 0 where
  pub messages : List Delivery
  pub send_failed : Option (List String)
  pub delete_returns : Bool

-- The thread's counters, the entries that the result queue has taken and the deletions made.
pub record Receiver : Type 0 where
  pub empty_polls : ℕ
  pub processed : ℕ
  pub results : List SendEntry
  pub deleted : List DeleteEntry

pub data Next : Type 0 where
  continue stop crash : Receiver → Next

abbrev pub start : Receiver
start = record { empty_polls = 0; processed = 0; results = []; deleted = [] }

module _ (c : Conversions) (int_sqrt : ℕ → ℕ) where
  -- The list of factors is read before any entry is built.
  unfoldable pub factors_of : List Delivery → Option (List ℕ)
  factors_of [] = some []
  factors_of (d ∷ ds) = do f ← int_attribute c "Factor" d.message; fs ← factors_of ds; some (f ∷ fs)

  unfoldable pub build_entries :
      ℕ → List Delivery → List ℕ → Option (List (SendEntry × DeleteEntry))
  build_entries index (d ∷ ds) (f ∷ fs) = do
    entry ← build_entry c index d.message (do_factor int_sqrt f) d.factor_time_ms d.pulled_time_ms
    rest ← build_entries (index + 1) ds fs
    some (entry ∷ rest)
  build_entries index _ _ = some []

  unfoldable pub prepare : List Delivery → Option (List (SendEntry × DeleteEntry))
  prepare ds = do fs ← factors_of ds; build_entries 0 ds fs

  -- `if delete_entries:` and what follows it in the loop's body.
  unfoldable pub acknowledge : Poll → List DeleteEntry → Receiver → Next
  acknowledge p [] s = continue (record s { processed = s.processed + length p.messages })
  acknowledge p (e ∷ es) s =
      if p.delete_returns
      then continue
          (record s { processed = s.processed + length p.messages; deleted = s.deleted ++ e ∷ es })
      else crash s

  -- The loop's body from the answer of the send on.
  unfoldable pub deliver : Poll → List (SendEntry × DeleteEntry) → List String → Receiver → Next
  unfolding acknowledge
  deliver p pairs failed_ids s =
      acknowledge p (keep (λ e. not (contains failed_ids e.id)) (map (λ e. e.1) pairs)) (record s {
        empty_polls = 0;
        results = s.results ++ keep (λ e. not (contains failed_ids e.id)) (map (λ e. e.0) pairs);
      })

  unfoldable pub handle_messages : Poll → Receiver → Next
  handle_messages p s = elim (prepare p.messages) [
    | none ↦ crash (record s { empty_polls = 0 })
    | some pairs ↦ elim p.send_failed [
      | none ↦ crash (record s { empty_polls = 0 })
      | some failed_ids ↦ deliver p pairs failed_ids s
    ]
  ]

  -- One round of `while True`.
  unfoldable pub poll_step : Poll → Receiver → Next
  poll_step p s = elim p.messages [
    | [] ↦
        let s' : Receiver = record s { empty_polls = s.empty_polls + 1 } in
        if leb 3 (s.empty_polls + 1) then stop s' else continue s'
    | d ∷ ds ↦ handle_messages p s
  ]

  -- `_receiver_loop` over the answers of the queue; `continue` at the end means that the loop would
  -- poll again.
  unfoldable pub receiver_loop : List Poll → Receiver → Next
  receiver_loop [] s = continue s
  receiver_loop (p ∷ ps) s = elim (poll_step p s) [
    | continue s' ↦ receiver_loop ps s'
    | stop s' ↦ stop s'
    | crash s' ↦ crash s'
  ]

  -- The receiver threads, each with what the queue answers to it; they share nothing else.
  unfoldable pub run_threads : List (List Poll) → List Next
  unfolding receiver_loop
  run_threads [] = []
  run_threads (polls ∷ threads) = receiver_loop polls start ∷ run_threads threads

-- The state in which a thread ends.
abbrev pub state_of : Next → Receiver
state_of (continue s) = s
state_of (stop s) = s
state_of (crash s) = s

-- All that the threads have put on the result queue.
abbrev pub all_results : List Next → List SendEntry
all_results [] = []
all_results (n ∷ ns) = (state_of n).results ++ all_results ns
