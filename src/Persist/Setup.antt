-- ===== src/Persist/Setup.antt =====
-- The set-up at the start of persist.py: the parameters of the connection, the database, its tables.
pub mod Created
use jim_tf.Base.{
  ℕ, ◌≡◌, refl, inl, inr, String, Option, none, some, Bool, true, false, not, List, [], ◌∷◌, ◌++◌,
  Conversions, nat_eq, is_some, text_of, string_key, ◌==◌, ◌>>=◌, if◌then◌else◌, Bool-cases,
  Option-cases, arith, contains,
}
use text.Mathlib.Text.{find?}

-- `port` of the secret: a number or a text of one.
pub data Port : Type 0 where
  number : ℕ → Port
  digits : String → Port

pub record Secret : Type 0 where
  pub username : String
  pub password : String
  pub host : String
  pub port : Option Port

pub record Params : Type 0 where
  pub user : String
  pub password : String
  pub host : String
  pub port : Option ℕ

-- `port` as a condition: 0 and "" are as none.
unfoldable pub given : Option Port → Option Port
given none = none
given (some (number n)) = if nat_eq n 0 then none else some (number n)
given (some (digits t)) = if t == "" then none else some (digits t)

abbrev pub params_of : Secret → String → Option ℕ → Params
params_of secret host port = record {
  user = secret.username;
  password = secret.password;
  host = host;
  port = port;
}

module _ (c : Conversions) (rsplit : String → Option (String × String)) where
  unfoldable pub int_of : Port → Option ℕ
  int_of (number n) = some n
  int_of (digits t) = c.int t

  -- The host and the port after the first `if`; `rsplit` parts a text at its last ":", if it has one.
  unfoldable pub split_host : String → Option Port → String × Option Port
  unfolding given
  split_host host port = elim (rsplit host) [
    | none ↦ (host, port)
    | some (host_part, host_port) ↦
        if c.is_digit host_port
        then (host_part, elim (given port) [ none ↦ some (digits host_port) | some p ↦ some p ])
        else (host, port)
  ]

  -- `_build_conn_params`; `none` is an exception of `int`.
  unfoldable pub build_conn_params : Secret → Option Params
  unfolding split_host given int_of
  build_conn_params secret =
      let (host, port) = split_host secret.host secret.port in
      elim (given port) [
        | none ↦ some (params_of secret host none)
        | some p ↦ do n ← int_of p; some (params_of secret host (some n))
      ]

-- An exception of the database, by its text, and another one.
pub data Failure : Type 0 where
  operational other : String → Failure

-- How the calls of `_ensure_db` and of the set-up are answered; `none` is a return.
pub record Server : Type 0 where
  pub first : Option Failure
  pub admin : Option Failure
  pub create : Option Failure
  pub second : Option Failure
  pub table : String → Option Failure

-- The calls that have returned.
pub data Call : Type 0 where
  connects creates executes : String → Call
  closes : Call

-- `f'database "{name}" does not exist' in str(exc)`
unfoldable pub says_missing : String → String → Bool
says_missing name exc =
    is_some (find? exc (text_of ("database \"" ∷ name ∷ "\" does not exist" ∷ [])))

-- One call after others; the first exception ends them.
abbrev pub then_call :
    Option Failure × List Call → Option Failure → Call → Option Failure × List Call
then_call (some exc, calls) answer call = (some exc, calls)
then_call (none, calls) none call = (none, calls ++ call ∷ [])
then_call (none, calls) (some exc) call = (some exc, calls)

unfoldable pub create_db : String → String → Server → Option Failure × List Call
create_db name admin_db server =
    let connected = then_call (none, []) server.admin (connects admin_db) in
    let created = then_call connected server.create (creates name) in
    then_call (then_call created none closes) server.second (connects name)

-- `_ensure_db`
unfoldable pub ensure_db : String → String → Server → Option Failure × List Call
unfolding create_db says_missing
ensure_db name admin_db server = elim server.first [
  | none ↦ (none, connects name ∷ [])
  | some (other exc) ↦ (some (other exc), [])
  | some (operational exc) ↦
      if says_missing name exc then create_db name admin_db server else (some (operational exc), [])
]

abbrev pub factors_table : String
factors_table =
    "\n        CREATE TABLE IF NOT EXISTS factors (\n            sequence UUID PRIMARY KEY,\n            data JSONB NOT NULL\n        )\n    "

abbrev pub summary_table : String
summary_table =
    "\n        CREATE TABLE IF NOT EXISTS scheme_summary (\n            scheme TEXT PRIMARY KEY,\n            total_count BIGINT NOT NULL DEFAULT 0,\n            first_persisted_at_ms BIGINT,\n            last_persisted_at_ms BIGINT\n        )\n    "

-- The statements of the module that follow.
unfoldable pub set_up : String → String → Server → Option Failure × List Call
unfolding ensure_db
set_up name admin_db server =
    let opened = ensure_db name admin_db server in
    let one_table = then_call opened (server.table factors_table) (executes factors_table) in
    let tables = then_call one_table (server.table summary_table) (executes summary_table) in
    then_call tables none closes
