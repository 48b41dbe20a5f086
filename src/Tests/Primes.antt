-- ===== src/Tests/Primes.antt =====
-- An example of the whole pipeline: a request for the number 3, from the receiver thread to the report.
use mathlib.Core.List.{Memᴰ}
use jim_tf.Base.{
  ℕ, ◌≡◌, ◌↔◌, refl, some, none, List, [], ◌∷◌, lookup, nat_key, string_key, true, false,
}
use jim_tf.Sqs.{Message, SendEntry, string_value}
use jim_tf.Process
use jim_tf.Process.{
  Delivery, start, receiver_loop, run_threads, poll_step, handle_messages, deliver, acknowledge,
  prepare, build_entries, build_entry, factors_of, int_attribute, result_attributes,
}
use jim_tf.Factor.{do_factor, factor_loop, factor_step}
use jim_tf.Persist.Parse.{Reading, Parsed, parse_message}
use jim_tf.Persist.Setup.{Server, ensure_db}
use jim_tf.Persist.Worker.{World, commits, Poll, worker_step, on_empty, on_gathered, flush, gather}
use jim_tf.Persist.Store.{insert_rows}
use jim_tf.Persist.Uuid.{uuid7}
use jim_tf.Persist.Pool.{persist, round_at, run_pool, round, after, opened, submitted}
use jim_tf.Report.{report}
use jim_tf.Report.Primes.{IsPrime}
use jim_tf.Pipeline.{queued, stored}
use jim_tf.Pipeline.Rows.{IsSent}
use jim_tf.Pipeline.Requests.{requested, IsRequest, persist-Drawn}
use jim_tf.Sender
use jim_tf.Sender.{Draws, Settings, test_entry, run, top_up, send_messages, batches_from}
use jim_tf.Pipeline.Reported.{report-primes}
use jim_tf.Tests.Unary.{unary, unary-IsExact, unary-IsExactList, root, root-IsFloorSqrt}

-- The load generator sends one message, for 3 under the scheme 1.
abbrev draws : Draws
draws = record { scheme = λ n. 1; factor = λ n. 3 }

abbrev one_message : Settings
one_message = record { initial_messages = 1; topup_messages = 1; total_limit = 1 }

abbrev three : Message
three = requested (test_entry unary draws 0 1) "m" "r" (unary.str 2)

asked : IsRequest unary draws 2 (λ b. false) one_message three
unfolding run top_up send_messages batches_from Sender.build_entries
asked = record {
  entry = test_entry unary draws 0 1;
  message_id = "m";
  receipt_handle = "r";
  sent_timestamp = unary.str 2;
  handed = Memᴰ.head refl;
  made = refl;
}

abbrev requests : List Process.Poll
requests =
    record {
      messages = record { message = three; factor_time_ms = 1; pulled_time_ms = 4 } ∷ [];
      send_failed = some [];
      delete_returns = true;
    }
    ∷ []

abbrev answer : SendEntry
answer = record {
  id = unary.str 0;
  delay_seconds = 0;
  attributes = result_attributes unary three (1 ∷ []) 1 4 3 1 2;
  body = "Factor";
}

abbrev result : Message
result = queued answer "n" "s" (unary.str 5)

sent : IsSent unary root (requests ∷ []) result
unfolding run_threads receiver_loop poll_step handle_messages deliver acknowledge prepare
    build_entries build_entry factors_of int_attribute result_attributes string_value do_factor
    factor_loop factor_step test_entry
sent = record {
  sent = answer;
  message_id = "n";
  receipt_handle = "s";
  sent_timestamp = unary.str 5;
  taken = Memᴰ.head refl;
  made = refl;
}

abbrev reading : Reading
reading = record {
  pulled_at_ms = 6;
  elapsed_ms = 1;
  persisted_at_ms = 7;
  stored_at_ms = 7;
  rand_a = 5;
  rand_b = 9;
}

-- Two workers: the first stores the answer and ends, and the second finds nothing.
abbrev rounds : List (ℕ × Poll)
rounds =
    (0, record { messages = (result, reading) ∷ []; answer = commits 1 })
    ∷ (1, record { messages = []; answer = commits 1 })
    ∷ (0, record { messages = []; answer = commits 1 })
    ∷ []

abbrev empty_world : World
empty_world = record { database = record { factors = []; summary = [] }; delete_calls = [] }

-- A server on which nothing raises.
abbrev server : Server
server = record { first = none; admin = none; create = none; second = none; table = λ s. none }

abbrev last : World
last = (persist unary 100 "factors" "postgres" (server ∷ server ∷ []) rounds empty_world).world

abbrev row : Parsed
row = stored unary three (1 ∷ []) 3 1 2 1 4 "s" reading

found : lookup row.sequence last.database.factors ≡ some row.row
unfolding persist run_pool round_at round after submitted opened ensure_db worker_step on_empty
    on_gathered flush gather parse_message string_value uuid7 result_attributes insert_rows
    test_entry
found = refl

persist-Drawn_example :
    (index pick : ℕ) × (row.row.factor ≡ draws.factor index)
    × (row.row.scheme ≡ draws.scheme pick)
    × (row.row.result ≡ do_factor root (draws.factor index))
persist-Drawn_example =
    persist-Drawn unary draws 2 (λ b. false) one_message root (requests ∷ []) unary-IsExact
      unary-IsExactList (asked, tt) 100 empty_world "factors" "postgres" (server ∷ server ∷ [])
      rounds ((sent, tt), (tt, (tt, tt))) (λ q r e. absurd (cc)) row.sequence row.row found

printed_all : (report "factors" "postgres" server last.database.factors).raised ≡ none
unfolding report ensure_db
printed_all = refl

report-primes_example :
    Memᴰ (row.sequence, row.row) (report "factors" "postgres" server last.database.factors).lines
    ↔ (Memᴰ (row.sequence, row.row) last.database.factors × IsPrime 3)
report-primes_example =
    report-primes unary root (requests ∷ []) unary-IsExact unary-IsExactList 100 empty_world
      "factors" "postgres" (server ∷ server ∷ []) rounds ((sent, tt), (tt, (tt, tt))) tt
      (λ q r e. absurd (cc)) server printed_all row.sequence row.row (root-IsFloorSqrt 3)
