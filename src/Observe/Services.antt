-- ===== src/Observe/Services.antt =====
-- `check_sqs`, `check_rds` and `check_cloudwatch_alarms`.
pub mod Reports
use jim_tf.Base.{
  ℕ, zero, suc, ◌+◌, String, Bool, true, false, not, List, [], ◌∷◌, ◌++◌, map, ltb, string_key,
  ◌==◌, if◌then◌else◌,
}
use Prim.Native.String.{◌++◌ as ◌then◌, [] as empty, ◌∷◌ as ◌before◌}
use jim_tf.Observe.{
  Severity, critical, high, medium, Text, queue_critical, queue_elevated, unable, status_is,
  alarm_reason, Problem, problem, Reply, raises, returns,
}

-- The three attributes of a queue.
pub record Depths : Type 0 where
  pub visible : ℕ
  pub in_flight : ℕ
  pub delayed : ℕ

pub record Queue : Type 0 where
  pub name : String
  pub depths : Depths
  pub total : ℕ

pub record SqsReport : Type 0 where
  pub queues : List Queue
  pub problems : List Problem

unfoldable pub depth_problems : String → ℕ → List Problem
depth_problems name visible =
    if ltb 10000 visible
    then problem "sqs" high ("queue/" then name) (queue_critical visible) ∷ []
    else if ltb 1000 visible
    then problem "sqs" medium ("queue/" then name) (queue_elevated visible) ∷ []
    else []

-- One round of `for queue_name in SQS_QUEUE_NAMES`; either call of the queue service may raise.
unfoldable pub queue_step : String → Reply Depths → SqsReport → SqsReport
unfolding depth_problems
queue_step name (raises exc) r = record r {
  problems = r.problems ++ problem "sqs" medium ("queue/" then name) (unable exc) ∷ [];
}
queue_step name (returns d) r = record {
  queues =
      r.queues
      ++ record { name = name; depths = d; total = d.visible + d.in_flight + d.delayed } ∷ [];
  problems = r.problems ++ depth_problems name d.visible;
}

unfoldable pub queue_loop : List (String × Reply Depths) → SqsReport → SqsReport
unfolding queue_step
queue_loop [] r = r
queue_loop ((name, reply) ∷ rest) r = queue_loop rest (queue_step name reply r)

unfoldable pub check_sqs : List (String × Reply Depths) → SqsReport
unfolding queue_loop
check_sqs replies = queue_loop replies (record { queues = []; problems = [] })

pub record Instance : Type 0 where
  pub id : String
  pub status : String
  pub engine : String
  pub engine_version : String
  pub instance_class : String
  pub storage_gb : ℕ
  pub multi_az : Bool

pub record RdsReport : Type 0 where
  pub instances : List Instance
  pub problems : List Problem

-- `for db in resp["DBInstances"]`. The two parts of the engine's text are kept apart.
unfoldable pub instance_loop : List Instance → RdsReport → RdsReport
instance_loop [] r = r
instance_loop (db ∷ dbs) r =
    let p = problem "rds" critical ("rds/" then db.id) (status_is db.status) in
    instance_loop dbs (record {
      instances = r.instances ++ db ∷ [];
      problems = if db.status == "available" then r.problems else r.problems ++ p ∷ [];
    })

unfoldable pub check_rds : String → Reply (List Instance) → RdsReport
unfolding instance_loop
check_rds instance_id reply =
    if instance_id == "" then record { instances = []; problems = [] } else elim reply [
      | raises exc ↦ record {
        instances = [];
        problems = problem "rds" high "rds/api" (unable exc) ∷ [];
      }
      | returns dbs ↦ instance_loop dbs (record { instances = []; problems = [] })
    ]

-- `text[:n]`
unfoldable pub cut : ℕ → String → String
cut zero text = ""
cut (suc n) empty = ""
cut (suc n) (c before text) = c before cut n text

pub record Alarm : Type 0 where
  pub name : String
  pub state : String
  pub reason : String
  pub metric : String
  pub namespace : String

pub record AlarmReport : Type 0 where
  pub alarms : List Alarm
  pub problems : List Problem

unfoldable pub shown_alarm : Alarm → Alarm
unfolding cut
shown_alarm a = record a { reason = cut 200 a.reason }

unfoldable pub alarm_problem : Alarm → Problem
unfolding cut
alarm_problem a = problem "cloudwatch" high ("alarm/" then a.name) (alarm_reason (cut 120 a.reason))

abbrev pub no_alarms_call : String → Problem
no_alarms_call exc = problem "cloudwatch" medium "cloudwatch/api" (unable exc)

-- The two calls are for the alarms that ring, and for those without data; the second is not made if
-- the first raises.
unfoldable pub check_cloudwatch_alarms : Reply (List Alarm) → Reply (List Alarm) → AlarmReport
unfolding shown_alarm alarm_problem
check_cloudwatch_alarms (raises exc) second = record {
  alarms = [];
  problems = no_alarms_call exc ∷ [];
}
check_cloudwatch_alarms (returns ringing) (raises exc) = record {
  alarms = map shown_alarm ringing;
  problems = map alarm_problem ringing ++ no_alarms_call exc ∷ [];
}
check_cloudwatch_alarms (returns ringing) (returns unknown) = record {
  alarms = map shown_alarm ringing ++ map shown_alarm unknown;
  problems = map alarm_problem ringing;
}
