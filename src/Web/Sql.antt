-- ===== src/Web/Sql.antt =====
-- The tables of a runtime and the statements of the pages.
use jim_tf.Base.{
  flat, join, text_of, ℕ, String, Option, none, some, List, [], ◌∷◌, ◌++◌, map, Dict, lookup,
  get_or, string_key, ◌==◌, if◌then◌else◌,
}
use Prim.Native.String.{◌++◌ as ◌then◌}

pub record Tables : Type 0 where
  pub factors : String
  pub summary : String

abbrev pub python_tables : Tables
python_tables = record { factors = "factors"; summary = "scheme_summary" }

abbrev pub typescript_tables : Tables
typescript_tables = record { factors = "factors_ts"; summary = "scheme_summary_ts" }

-- `_RUNTIME_TABLES` and `_tables_for`.
abbrev pub runtime_tables : Dict String Tables
runtime_tables = ("python", python_tables) ∷ ("typescript", typescript_tables) ∷ []

unfoldable pub tables_for : String → Tables
tables_for runtime = get_or (lookup runtime runtime_tables) python_tables

-- `_METRIC_KEYS` with `_METRIC_LABELS`.
abbrev pub metrics : List (String × String)
metrics =
    ("sent_to_persist_ms", "sent_to_persist")
    ∷ ("pull_to_persist_ms", "pull_to_persist")
    ∷ ("queue_to_db_ms", "queue_to_db")
    ∷ ("factor_time_ms", "factor_time")
    ∷ []

-- The five columns of a metric.
unfoldable pub agg_cols : String → List String
agg_cols key =
    let cast = text_of ("(data->>'" ∷ key ∷ "')::double precision" ∷ []) in
    text_of ("COUNT(" ∷ cast ∷ ") AS \"" ∷ key ∷ "_count\"" ∷ [])
    ∷ text_of ("AVG(" ∷ cast ∷ ") AS \"" ∷ key ∷ "_avg\"" ∷ [])
    ∷ text_of ("STDDEV_POP(" ∷ cast ∷ ") AS \"" ∷ key ∷ "_stddev\"" ∷ [])
    ∷ text_of ("MIN(" ∷ cast ∷ ") AS \"" ∷ key ∷ "_min\"" ∷ [])
    ∷ text_of ("MAX(" ∷ cast ∷ ") AS \"" ∷ key ∷ "_max\"" ∷ [])
    ∷ []

-- `_build_agg_sql`
unfoldable pub build_agg_sql : String → String → String
unfolding agg_cols
build_agg_sql where_clause table =
    let columns = join ", " (flat (map (λ (m : String × String). agg_cols m.0) metrics)) in
    let sql = text_of ("SELECT " ∷ columns ∷ " FROM " ∷ table ∷ []) in
    if where_clause == "" then sql else sql then (" WHERE " then where_clause)

-- `_THROUGHPUT_WINDOWS`: the seconds, and how Python prints them and their milliseconds.
abbrev pub throughput_windows : List (ℕ × String × String)
throughput_windows = (60, "60", "60000") ∷ (300, "300", "300000") ∷ (3600, "3600", "3600000") ∷ []

abbrev pub persisted_ts : String
persisted_ts = "(data->>'persisted_at_ms')::bigint"

unfoldable pub window_col : ℕ × String × String → String
window_col w = text_of (
    "COUNT(*) FILTER (WHERE " ∷ persisted_ts ∷ " > " ∷ "(extract(epoch from now()) * 1000)::bigint"
    ∷ " - " ∷ w.2 ∷ ") AS w_" ∷ w.1 ∷ [])

-- `_build_throughput_sql`
unfoldable pub build_throughput_sql : String → String → String
unfolding window_col
build_throughput_sql where_clause table =
    let cols = join ", " (
      map window_col throughput_windows
      ++ text_of ("MIN(" ∷ persisted_ts ∷ ") AS first_ms" ∷ [])
        ∷ text_of ("MAX(" ∷ persisted_ts ∷ ") AS last_ms" ∷ [])
        ∷ "COUNT(*) AS total"
        ∷ []) in
    let sql =
      text_of (
        "SELECT " ∷ cols ∷ " FROM " ∷ table ∷ " WHERE data->>'persisted_at_ms' IS NOT NULL" ∷ []) in
    if where_clause == "" then sql else sql then (" AND (" then (where_clause then ")"))

-- What is passed to `cur.execute`: the text, and the parameters for its `%s`.
pub record Statement : Type 0 where
  pub text : String
  pub parameters : List String

unfoldable pub schemes_statement : String → Statement
schemes_statement summary_tbl = record {
  text = text_of (
      "SELECT scheme, total_count, first_persisted_at_ms, last_persisted_at_ms " ∷ "FROM "
      ∷ summary_tbl ∷ " ORDER BY last_persisted_at_ms DESC" ∷ []);
  parameters = [];
}

abbrev pub scheme_clause : String
scheme_clause = "(data->>'scheme')::text = %s"

-- A statement for all schemes, or for one: `if scheme_value is None or scheme_value == ""`.
unfoldable pub for_scheme : (String → String → String) → Option String → String → Statement
for_scheme build none table = record { text = build "" table; parameters = [] }
for_scheme build (some scheme) table =
    if scheme == ""
    then record { text = build "" table; parameters = [] }
    else record { text = build scheme_clause table; parameters = scheme ∷ [] }

unfoldable pub agg_statement : Option String → String → Statement
unfolding for_scheme build_agg_sql
agg_statement scheme table = for_scheme build_agg_sql scheme table

unfoldable pub throughput_statement : Option String → String → Statement
unfolding for_scheme build_throughput_sql
throughput_statement scheme table = for_scheme build_throughput_sql scheme table
