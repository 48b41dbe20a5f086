-- ===== src/Lib.antt =====
-- A factor pipeline and the programs around it.
--
-- infrastructure/code/test_msg.py puts numbers on a queue. infrastructure/code/process.py reads
-- them, lists the proper divisors of each, and puts the results on a second queue.
-- infrastructure/nomad/scripts/persist.py reads these and stores them in a database, of which
-- infrastructure/code/report.py prints the rows with one factor. Beside the pipeline stand a service
-- that loads its machine (stress-test/app.py), a dashboard that looks for problems and sends alerts
-- (infrastructure/observability-dashboard/app.py), an agent that looks for anomalies in network
-- flows (infrastructure/security-agent/agent.py), a dashboard of its reports
-- (infrastructure/security-dashboard/app.py), and a web server that shows what the pipeline has
-- stored (infrastructure/web/server.py).
--
-- Base: tests on native numbers, lists, Python's dictionaries as association lists in insertion
--   order, Python's conversions between numbers and texts as an interface (Base/Text), bit
--   operations.
-- Sqs: messages and the entries of batch calls.
-- Sender: test_msg.py. `test_entry` and `build_entries` are `_build_entries`, `batches_from` and
--   `send_messages` are `_send_messages` with `_send_batch`, `top_up` and `run` are the main program.
--   A batch counts as sent when it is submitted to the executor, whose threads are not modelled.
--   infrastructure/nomad/scripts/test_msg.py is the same program from `_resolve_queue_url` on.
-- Factor: `do_factor` of process.py. The limit, which the source computes in floating point, is a
--   function, and the theorems assume that it is the integer square root of the arguments in question;
--   for large arguments the rounding can make it greater.
-- Process: `_build_entry`, `_receiver_loop` and the threads of process.py. A round of the loop is a
--   `Poll`: the messages received and the answers to the two batch calls. `Next` says how the loop's
--   body ends.
-- Persist: persist.py. Persist/Setup is `_build_conn_params`, `_ensure_db` and the creation of the
--   tables, Persist/Uuid is `_uuid7`, Persist/Parse is `_parse_message`, Persist/Batch and
--   Persist/Store are the counts for a scheme and the two tables, Persist/Worker is `_flush` and
--   `_worker`, and Persist/Pool runs several workers over one database, their rounds in any order.
--   Persist/Older is `_worker` of infrastructure/code/persist.py, an older copy that commits after
--   every poll. A flush is answered by an exception of the database or by a commit and a number of
--   deletions that return; a receipt counts as deleted when the call with it has returned, as in the
--   source, which does not read the answer of the call.
-- Report: infrastructure/code/report.py, which prints the stored rows with one factor.
-- Pipeline: test_msg.py, process.py, persist.py and report.py together. An entry of process.py as
--   persist.py reads it; Pipeline/Requests and Pipeline/Rows follow what is drawn and the receiver
--   threads' results into the table, Pipeline/Reported follows the rows into the report.
-- Stress: stress-test/app.py. The handlers change an `App`; Stress/States has the states that it can be
--   in, Stress/Sessions orders the handlers as steps, Stress/Stuck follows a start whose memory cannot
--   be allocated, and Stress/Views has the pages that only read.
-- Observe: the dashboard. Observe/Services is `check_sqs`, `check_rds` and
--   `check_cloudwatch_alarms`, Observe/FactorTs is `check_factor_ts`, Observe/Nomad is `check_nomad`,
--   Observe/Kubernetes is `check_kubernetes`, Observe/Logs is `_analyze_task_logs` and Observe/Logs/Scan
--   `check_nomad_logs`, Observe/Collect is `collect_all` from the checks' problems on, with
--   `_is_suppressed`, `_stamp_problems` and `_update_history`, Observe/Alerts is `_fire_alerts`, and
--   Observe/Rounds puts them together: `collect_all`, the poller and the pages. A call of a service is
--   a `Reply`, and an exception ends the `try` block as in the source. A float setting is a fraction.
-- Agent: the security agent. Agent/Detect has the detectors, whose first loop fills a `defaultdict`
--   (Base/Groups), and Agent/Report has `main` from the flows on. Agent/Storage is
--   `list_recent_s3_keys`, `read_flows_from_s3` and the key of a report, and Agent/Program is
--   `correlate_with_llm`, the text of the notice, and the whole of `main`. The other children have
--   the proofs.
-- Web: `_get_conn_with_retry`, `_db_conn` and `_query_with_retry` of the web server, over what each
--   attempt meets. Web/Retries has the proofs. Web/Sql is the statements, Web/Rows what is shown of
--   the rows, Web/Pages is `do_GET` with the pages, and Web/Start creates the tables. A float is the
--   text that `repr` gives, and a quotient is kept as a count and a time, since the arithmetic of
--   floats is outside the model.
-- Dashboard: `compute_stats` of the dashboard of reports, and in Dashboard/Pages `list_reports`,
--   `get_report` and the pages. Dashboard/Sums, Dashboard/Pages/Confined and Dashboard/Pages/Saved
--   have the proofs.
-- Tests: examples.
--
-- A loop over polls is a recursion on the list of the polls, so it needs no fuel. `top_up` takes fuel;
-- a limit of n messages needs more than n, as each round sends at least one. `batches_from` takes the
-- count as the number of rounds, which is enough since each round sends at least one message of it.
-- `batches_of_ten` takes the number of receipts. The loop over the hours of the logs takes fuel, of
-- which three more than the hours of the lookback are enough. Times are natural numbers; a difference
-- that may be negative is an integer.
--
-- The services (queues, database, notifications, the language model, the cluster's interfaces), the
-- text of JSON and of logs, and, but for the rounds of the persist workers, threads that run at once
-- are outside the model; what a service answers is an argument. The set-up of the database is
-- modelled for persist.py; the other programs have copies of it.
pub mod Base
pub mod Sqs
pub mod Factor
pub mod Sender
pub mod Stress
pub mod Process
pub mod Persist
pub mod Observe
pub mod Report
pub mod Pipeline
pub mod Agent
pub mod Web
pub mod Dashboard
pub mod Tests
