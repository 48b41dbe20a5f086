-- ===== src/Web/Start.antt =====
-- `_ensure_table`, which runs in a thread of its own when the server starts.
use jim_tf.Base.{
  ℕ, ◌+◌, Bool, if◌then◌else◌, String, Option, none, some, List, [], ◌∷◌, map, text_of, flat, arith,
}
use jim_tf.Web.{Attempt, Pool, Got, connected, raises_last, escaped, put_conn, get_conn_with_retry}
use jim_tf.Web.Retries.{taken, failing, Leaks, put_conn_held, get_conn_held}
use jim_tf.Web.Sql.{Tables, runtime_tables}

-- The three statements for the tables of a runtime.
unfoldable pub table_statements : Tables → List String
table_statements tbl =
    text_of (
      "\n                        CREATE TABLE IF NOT EXISTS " ∷ tbl.factors
      ∷ " (\n                            sequence UUID PRIMARY KEY,\n"
      ∷ "                            data JSONB NOT NULL\n"
      ∷ "                        )\n                        " ∷ [])
    ∷ text_of (
        "\n                        CREATE INDEX IF NOT EXISTS idx_" ∷ tbl.factors
        ∷ "_scheme\n                            ON " ∷ tbl.factors
        ∷ " ((data->>'scheme'))\n                        " ∷ [])
    ∷ text_of (
        "\n                        CREATE TABLE IF NOT EXISTS " ∷ tbl.summary
        ∷ " (\n                            scheme TEXT PRIMARY KEY,\n"
        ∷ "                            total_count BIGINT NOT NULL DEFAULT 0,\n"
        ∷ "                            first_persisted_at_ms BIGINT,\n"
        ∷ "                            last_persisted_at_ms BIGINT\n"
        ∷ "                        )\n                        " ∷ [])
    ∷ []

-- The statements that have been executed, up to the first that raises.
unfoldable pub executed : (String → Option String) → List String → List String
executed raises [] = []
executed raises (st ∷ sts) = elim (raises st) [ none ↦ st ∷ executed raises sts | some exc ↦ [] ]

-- `_ensure_table`: all exceptions end in a warning, and `putconn` is called for the connection.
unfoldable pub ensure_table :
    List Attempt → (ℕ → String → Option String) → Bool → Pool → List String × Pool
unfolding get_conn_with_retry put_conn table_statements executed
ensure_table attempts raises put_back s =
    let got = get_conn_with_retry attempts 0 none s in
    elim got.0 [
      | raises_last exc ↦ ([], got.1)
      | escaped exc ↦ ([], got.1)
      | connected conn ↦ (
        executed (raises conn)
            (flat (map (λ (t : String × Tables). table_statements t.1) runtime_tables)),
        put_conn put_back got.1,
      )
    ]

-- However it ends, it leaves out at most as many connections as there are calls of `putconn` that raise.
ensure_table-held :
    (attempts : List Attempt) (raises : ℕ → String → Option String) (put_back : Bool) (s : Pool)
    → Leaks s.held
        (failing attempts + (if put_back then 0 else 1))
        (ensure_table attempts raises put_back s).1.held
unfolding ensure_table
ensure_table-held attempts raises put_back s =
    by_got (get_conn_with_retry attempts 0 none s) (get_conn_held attempts 0 none s)
  where
    by_got :
        (got : Got × Pool)
        → Leaks (s.held + taken got.0) (failing attempts) got.1.held
        → Leaks s.held
            (failing attempts + (if put_back then 0 else 1))
            (elim got.0 as (λ g. List String × Pool) [
              | raises_last exc ↦ ([], got.1)
              | escaped exc ↦ ([], got.1)
              | connected conn ↦ (
                executed
                    (raises conn)
                    (flat (map (λ (t : String × Tables). table_statements t.1) runtime_tables)),
                put_conn put_back got.1,
              )
            ]).1.held
    by_got (raises_last exc, p) h = (omega (arith, h.0), omega (arith, h.1))
    by_got (escaped exc, p) h = (omega (arith, h.0), omega (arith, h.1))
    by_got (connected conn, p) h =
        let back = put_conn_held put_back p (omega (arith, h.0)) in
        (omega (arith, back, h.0), omega (arith, back, h.1))
