-- ===== src/Web/Pages.antt =====
-- `do_GET`: the pages, from the request to what is written to the client.
pub mod Served
pub mod Allowed
use jim_tf.Base.{
  ℕ, String, Bool, Option, none, some, List, [], ◌∷◌, ◌++◌, Dict, lookup, get_or, string_key, ◌==◌,
  ◌>>=◌, if◌then◌else◌,
}
use jim_tf.Web.{
  Attempt, Pool, Answer, answers, operational, other, Queried, returned, gave_up, broke, Try,
  query_with_retry,
}
use jim_tf.Web.Sql.{
  Tables, tables_for, Statement, schemes_statement, agg_statement, throughput_statement,
}
use jim_tf.Web.Rows.{
  Row, SchemeRate, scheme_rates, Metric, row_to_stats, Throughput, throughput_from_row,
}

-- A request as `urlparse` and `parse_qs` read it.
pub record Request : Type 0 where
  pub path : String
  pub query : Dict String (List String)

-- What a connection answers to a statement.
abbrev pub Execute : Type 0
Execute = Statement → Answer (List Row)

-- What one round of `_query_with_retry` meets. There are at most three rounds, of at most three
-- attempts each; the definitions take any number.
pub record Round : Type 0 where
  pub attempts : List Attempt
  pub execute : ℕ → Execute
  pub put_back : Bool

pub data Payload : Type 0 where
  health internal_error : Payload
  schemes_page : List SchemeRate → Payload
  scheme_page :
      (scheme : Option String) (runtime : String) (stats : Dict String Metric)
      (throughput : Throughput)
      → Payload
  throughput_page : (scheme : Option String) (throughput : Throughput) → Payload

-- What is written: a response's head with its status, a payload, or a file.
pub data Written : Type 0 where
  head : ℕ → Written
  body : Payload → Written
  file : String → Written

-- How the writing of a response goes: an exception at its head, and the end of its body.
pub data Ending : Type 0 where
  sent broken_pipe : Ending
  fails : String → Ending

pub record Wire : Type 0 where
  pub head_raises : Option String
  pub ending : Ending

-- An operation that writes raises an exception or none.
abbrev pub Writing : Type 0
Writing = Option String × List Written

-- `_json_response`
unfoldable pub json_response : Payload → ℕ → Wire → List Written → Writing
json_response payload status wire out = elim wire.head_raises [
  | some exc ↦ (some exc, out)
  | none ↦ elim wire.ending [
    | sent ↦ (none, out ++ head status ∷ body payload ∷ [])
    | broken_pipe ↦ (none, out ++ head status ∷ [])
    | fails exc ↦ (some exc, out ++ head status ∷ [])
  ]
]

-- `query.get("runtime", ["python"])[0]` and `query.get("scheme", [None])[0]`
unfoldable pub runtime_of : Request → Option String
runtime_of req = elim (lookup "runtime" req.query) [
  | none ↦ some "python"
  | some [] ↦ none
  | some (v ∷ vs) ↦ some v
]

unfoldable pub scheme_of : Request → Option (Option String)
scheme_of req = elim (lookup "scheme" req.query) [
  | none ↦ some none
  | some [] ↦ none
  | some (v ∷ vs) ↦ some (some v)
]

-- `cur.fetchone()`
abbrev pub first_row : List Row → Option Row
first_row [] = none
first_row (row ∷ rows) = some row

abbrev pub and_then {ℓ κ} : {A : Type ℓ} {B : Type κ} → Answer A → (A → Answer B) → Answer B
and_then (answers a) f = f a
and_then (operational exc) f = operational exc
and_then (other exc) f = other exc

-- The functions `_do` of the three pages.
unfoldable pub do_schemes : String → Execute → Answer (List Row)
unfolding schemes_statement
do_schemes summary_tbl execute = execute (schemes_statement summary_tbl)

unfoldable pub do_throughput : Option String → String → Execute → Answer (Option Row)
unfolding throughput_statement
do_throughput scheme_value factors_tbl execute =
    and_then (execute (throughput_statement scheme_value factors_tbl))
      (λ rows. answers (first_row rows))

unfoldable pub do_scheme : Option String → String → Execute → Answer (Option Row × Option Row)
unfolding agg_statement do_throughput
do_scheme scheme_value factors_tbl execute =
    and_then (execute (agg_statement scheme_value factors_tbl)) (λ rows.
      and_then (do_throughput scheme_value factors_tbl execute)
        (λ tp_row. answers (first_row rows, tp_row)))

-- `self._query_with_retry(_do)` over the rounds; the exceptions are `none`.
unfoldable pub tries_of {ℓ} : {A : Type ℓ} → (Execute → Answer A) → List Round → List (Try A)
tries_of fn [] = []
tries_of fn (r ∷ rounds) =
    record { attempts = r.attempts; fn = λ conn. fn (r.execute conn); put_back = r.put_back }
    ∷ tries_of fn rounds

abbrev pub value_of {ℓ} : {A : Type ℓ} → Queried A → Option A
value_of (returned a) = some a
value_of (gave_up exc) = none
value_of (broke exc) = none

unfoldable pub run_query {ℓ} :
    {A : Type ℓ} → (Execute → Answer A) → List Round → Pool → Option A × Pool
unfolding tries_of query_with_retry
run_query fn rounds s = let q = query_with_retry (tries_of fn rounds) none s in (value_of q.0, q.1)

-- The payloads that are made of the rows.
unfoldable pub schemes_payload : List Row → Option Payload
unfolding scheme_rates
schemes_payload rows = do schemes ← scheme_rates rows; some (schemes_page schemes)

unfoldable pub scheme_payload : Option String → String → Option Row × Option Row → Option Payload
unfolding row_to_stats throughput_from_row
scheme_payload scheme_value runtime rows = do
  agg_row ← rows.0
  stats ← row_to_stats agg_row
  tp_row ← rows.1
  throughput ← throughput_from_row tp_row
  some (scheme_page scheme_value runtime stats throughput)

unfoldable pub throughput_payload : Option String → Option Row → Option Payload
unfolding throughput_from_row
throughput_payload scheme_value row = do
  tp_row ← row
  throughput ← throughput_from_row tp_row
  some (throughput_page scheme_value throughput)

-- A query and what is made of its rows.
abbrev pub query_page {ℓ} :
    {A : Type ℓ}
    → (Execute → Answer A)
    → (A → Option Payload)
    → List Round
    → Pool
    → Option Payload × Pool
query_page fn make rounds s = let q = run_query fn rounds s in ((do rows ← q.0; make rows), q.1)

-- The pages up to their `_json_response`; `none` is an exception.
unfoldable pub api_schemes : Request → List Round → Pool → Option Payload × Pool
unfolding runtime_of tables_for do_schemes run_query schemes_payload
api_schemes req rounds s = elim (runtime_of req) [
  | none ↦ (none, s)
  | some runtime ↦ query_page (do_schemes (tables_for runtime).summary) schemes_payload rounds s
]

unfoldable pub api_scheme : Request → List Round → Pool → Option Payload × Pool
unfolding scheme_of runtime_of tables_for do_scheme run_query scheme_payload
api_scheme req rounds s = elim (scheme_of req) [
  | none ↦ (none, s)
  | some scheme_value ↦ elim (runtime_of req) [
    | none ↦ (none, s)
    | some runtime ↦
        query_page (do_scheme scheme_value (tables_for runtime).factors)
          (scheme_payload scheme_value runtime) rounds s
  ]
]

unfoldable pub api_throughput : Request → List Round → Pool → Option Payload × Pool
unfolding scheme_of runtime_of tables_for do_throughput run_query throughput_payload
api_throughput req rounds s = elim (scheme_of req) [
  | none ↦ (none, s)
  | some scheme_value ↦ elim (runtime_of req) [
    | none ↦ (none, s)
    | some runtime ↦
        query_page (do_throughput scheme_value (tables_for runtime).factors)
          (throughput_payload scheme_value) rounds s
  ]
]

-- `self._json_response(…)` with what a page gives, if it gives it.
unfoldable pub respond : Option Payload × Pool → Wire → Writing × Pool
unfolding json_response
respond (none, s) wire = ((some "exception", []), s)
respond (some payload, s) wire = (json_response payload 200 wire [], s)

-- `_route_get`; `static` is what `SimpleHTTPRequestHandler` does with a path.
unfoldable pub route_get : (String → Writing) → Request → List Round → Wire → Pool → Writing × Pool
unfolding respond api_schemes api_scheme api_throughput
route_get static req rounds wire s =
    if req.path == "/health"
    then respond (some health, s) wire
    else if req.path == "/api/schemes"
    then respond (api_schemes req rounds s) wire
    else if req.path == "/api/scheme"
    then respond (api_scheme req rounds s) wire
    else if req.path == "/api/throughput"
    then respond (api_throughput req rounds s) wire
    else (static req.path, s)

-- `except Exception` of `do_GET`, which answers with an error; the wire is that of this response.
unfoldable pub finished : Wire → Writing × Pool → List Written × Pool
unfolding json_response
finished error_wire (writing, s) = elim writing.0 [
  | none ↦ (writing.1, s)
  | some exc ↦ ((json_response internal_error 500 error_wire writing.1).1, s)
]

unfoldable pub do_get :
    (String → Writing) → Request → List Round → Wire → Wire → Pool → List Written × Pool
unfolding route_get finished
do_get static req rounds wire error_wire s =
    finished error_wire (route_get static req rounds wire s)
