-- ===== src/Web/Rows.antt =====
-- `_row_to_stats`, `_throughput_from_row`, and the rates of `/api/schemes`: what is shown of the rows
-- that the database answers. `none` is an exception.
use jim_tf.Base.{
  ℕ, zero, suc, ◌+◌, ◌-◌, ◌*◌, String, Option, none, some, List, [], ◌∷◌, Dict, ◌>>=◌, ltb, nat_eq,
  if◌then◌else◌,
}
use Prim.Native.String.{◌++◌ as ◌then◌}
use jim_tf.Web.Sql.{metrics, throughput_windows}

-- A value of a row: `None`, an integer, a float by its `repr`, or a text.
pub data Cell : Type 0 where
  null : Cell
  whole : ℕ → Cell
  double text : String → Cell

abbrev pub Row : Type 0
Row = List Cell

-- What is shown: a value, a value rounded to two digits, a count over a time in ms as the rate in a
-- second, rounded to two digits, and a time in ms as seconds, rounded to one digit.
pub data Number : Type 0 where
  value rounded : Cell → Number
  rate : Cell → ℕ → Number
  seconds : ℕ → Number

-- `row[i]`
unfoldable pub cell_at : Row → ℕ → Option Cell
cell_at [] i = none
cell_at (c ∷ row) zero = some c
cell_at (c ∷ row) (suc i) = cell_at row i

-- `c or 0`, for a count.
unfoldable pub or_zero : Cell → Cell
or_zero null = whole 0
or_zero c = c

-- `round(c, 2) if c is not None else None`
unfoldable pub round_cell : Cell → Option Number
round_cell null = some (value null)
round_cell (whole n) = some (rounded (whole n))
round_cell (double d) = some (rounded (double d))
round_cell (text t) = none

-- `round(count / (ms / 1000.0), 2)`, with Python's errors.
unfoldable pub rate_of : Cell → ℕ → Option Number
rate_of null ms = none
rate_of (text t) ms = none
rate_of (whole n) ms = if nat_eq ms 0 then none else some (rate (whole n) ms)
rate_of (double d) ms = if nat_eq ms 0 then none else some (rate (double d) ms)

-- `last_ms - first_ms` under the condition `first_ms and last_ms and last_ms > first_ms`; the columns
-- are of the type BIGINT.
unfoldable pub span_of : Cell → Cell → Option ℕ
span_of (whole first_ms) (whole last_ms) =
    if nat_eq first_ms 0
    then none
    else if nat_eq last_ms 0
    then none
    else if ltb first_ms last_ms
    then some (last_ms - first_ms)
    else none
span_of first_ms last_ms = none

pub record SchemeRate : Type 0 where
  pub scheme : Cell
  pub count : Cell
  pub avg_msgs_per_sec : Number

-- One round of `for r in rows`.
unfoldable pub scheme_rate : Row → Option SchemeRate
unfolding span_of rate_of
scheme_rate (scheme ∷ count ∷ first_ms ∷ last_ms ∷ []) = do
  avg_mps ← elim (span_of first_ms last_ms) [
    | none ↦ some (value (whole 0))
    | some ms ↦ rate_of count ms
  ]
  some (record { scheme = scheme; count = count; avg_msgs_per_sec = avg_mps })
scheme_rate row = none

unfoldable pub scheme_rates : List Row → Option (List SchemeRate)
unfolding scheme_rate
scheme_rates [] = some []
scheme_rates (row ∷ rows) = do s ← scheme_rate row; ss ← scheme_rates rows; some (s ∷ ss)

pub record Metric : Type 0 where
  pub count : Cell
  pub avg : Number
  pub stddev : Number
  pub min : Number
  pub max : Number

unfoldable pub metric_at : Row → ℕ → Option Metric
unfolding cell_at or_zero round_cell
metric_at row offset = do
  count ← cell_at row offset
  avg ← (do c ← cell_at row (offset + 1); round_cell c)
  stddev ← (do c ← cell_at row (offset + 2); round_cell c)
  least ← (do c ← cell_at row (offset + 3); round_cell c)
  greatest ← (do c ← cell_at row (offset + 4); round_cell c)
  some (record { count = or_zero count; avg = avg; stddev = stddev; min = least; max = greatest })

-- The loop of `_row_to_stats` from the metric `i` on.
unfoldable pub stats_from : Row → ℕ → List (String × String) → Option (Dict String Metric)
unfolding metric_at
stats_from row i [] = some []
stats_from row i ((key, label) ∷ more) = do
  m ← metric_at row (i * 5)
  rest ← stats_from row (i + 1) more
  some ((label, m) ∷ rest)

unfoldable pub row_to_stats : Row → Option (Dict String Metric)
unfolding stats_from
row_to_stats row = stats_from row 0 metrics

pub record Window : Type 0 where
  pub count : Cell
  pub msgs_per_sec : Number

pub record Overall : Type 0 where
  pub count : Cell
  pub msgs_per_sec : Number
  pub span_seconds : Number

pub record Throughput : Type 0 where
  pub windows : Dict String Window
  pub overall : Overall

-- The loop over `_THROUGHPUT_WINDOWS`.
unfoldable pub windows_from : Row → ℕ → List (ℕ × String × String) → Option (Dict String Window)
unfolding cell_at or_zero rate_of
windows_from row i [] = some []
windows_from row i ((secs, label, ms) ∷ more) = do
  c ← cell_at row i
  per_sec ← (if ltb 0 secs then rate_of (or_zero c) (secs * 1000) else some (value (whole 0)))
  rest ← windows_from row (i + 1) more
  some
      (("last_" then (label then "s"), record { count = or_zero c; msgs_per_sec = per_sec }) ∷ rest)

unfoldable pub overall_of : Cell → Cell → Cell → Option Overall
unfolding span_of rate_of or_zero
overall_of first_ms last_ms total = elim (span_of first_ms last_ms) [
  | some ms ↦ do
    r ← rate_of total ms
    some (record { count = total; msgs_per_sec = r; span_seconds = seconds ms })
  | none ↦ some (record {
    count = or_zero total;
    msgs_per_sec = value (whole 0);
    span_seconds = value (whole 0);
  })
]

unfoldable pub throughput_from_row : Row → Option Throughput
unfolding windows_from overall_of cell_at
throughput_from_row row = do
  windows ← windows_from row 0 throughput_windows
  first_ms ← cell_at row 3
  last_ms ← cell_at row 4
  total ← cell_at row 5
  overall ← overall_of first_ms last_ms total
  some (record { windows = windows; overall = overall })
