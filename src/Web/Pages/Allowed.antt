-- ===== src/Web/Pages/Allowed.antt =====
-- The texts of the statements do not depend on the request.
use jim_tf.Base.{
  ◌≡◌, refl, ap, ◌⊎◌, inl, inr, String, true, Option, none, some, List, [], ◌∷◌, ◌++◌, map,
  contains, string_key, ◌==◌, if◌then◌else◌, Bool-cases, Option-cases,
}
use jim_tf.Web.{Pool, Answer, answers, other}
use jim_tf.Web.Sql.{
  Tables, python_tables, typescript_tables, tables_for, build_agg_sql, agg_cols,
  build_throughput_sql, window_col, scheme_clause, Statement, schemes_statement, for_scheme,
  agg_statement, throughput_statement,
}
use jim_tf.Web.Pages.{
  Request, Execute, Round, Payload, Wire, Writing, runtime_of, scheme_of, first_row, and_then,
  do_schemes, do_throughput, do_scheme, tries_of, run_query, query_page, schemes_payload,
  scheme_payload, throughput_payload, api_schemes, api_scheme, api_throughput, route_get, do_get,
}

abbrev texts_of : Tables → List String
texts_of tables =
    (schemes_statement tables.summary).text
    ∷ build_agg_sql "" tables.factors
    ∷ build_agg_sql scheme_clause tables.factors
    ∷ build_throughput_sql "" tables.factors
    ∷ build_throughput_sql scheme_clause tables.factors
    ∷ []

-- Ten texts: for the tables of either runtime the list of the schemes, and the statistics and the
-- throughput of all schemes and of one.
abbrev pub listed_texts : List String
listed_texts = texts_of python_tables ++ texts_of typescript_tables

-- A connection that refuses all other texts.
abbrev pub listed_only : Execute → Execute
listed_only execute st = if contains listed_texts st.text then execute st else other "refused"

abbrev pub guarded : Round → Round
guarded r = record r { execute = λ conn. listed_only (r.execute conn) }

listed_only_lem :
    (execute : Execute) (st : Statement)
    → contains listed_texts st.text ≡ true
    → listed_only execute st ≡ execute st
listed_only_lem execute st h = rw h refl

tables-cases :
    (runtime : String)
    → (tables_for runtime ≡ python_tables) ⊎ (tables_for runtime ≡ typescript_tables)
unfolding tables_for
tables-cases runtime = elim (Bool-cases ("python" == runtime)) [
  | inl e ↦ inl (rw e refl)
  | inr e ↦ elim (Bool-cases ("typescript" == runtime)) [
    | inl f ↦ inr (rw (e, f) refl)
    | inr f ↦ inl (rw (e, f) refl)
  ]
]

-- The three kinds of statements are listed.
record AreListed (tables : Tables) : Type 0 where
  schemes : contains listed_texts (schemes_statement tables.summary).text ≡ true
  agg :
      (scheme : Option String)
      → contains listed_texts (agg_statement scheme tables.factors).text ≡ true
  throughput :
      (scheme : Option String)
      → contains listed_texts (throughput_statement scheme tables.factors).text ≡ true

for_scheme-text :
    (build : String → String → String) (scheme : Option String) (table : String)
    → contains listed_texts (build "" table) ≡ true
    → contains listed_texts (build scheme_clause table) ≡ true
    → contains listed_texts (for_scheme build scheme table).text ≡ true
unfolding for_scheme
for_scheme-text build none table h k = h
for_scheme-text build (some scheme) table h k = elim (Bool-cases (scheme == "")) [
  | inl e ↦ rw e h
  | inr e ↦ rw e k
]

python-AreListed : AreListed python_tables
unfolding schemes_statement agg_statement throughput_statement build_agg_sql agg_cols
    build_throughput_sql window_col
python-AreListed = record {
  schemes = refl;
  agg = λ scheme. for_scheme-text build_agg_sql scheme "factors" refl refl;
  throughput = λ scheme. for_scheme-text build_throughput_sql scheme "factors" refl refl;
}

typescript-AreListed : AreListed typescript_tables
unfolding schemes_statement agg_statement throughput_statement build_agg_sql agg_cols
    build_throughput_sql window_col
typescript-AreListed = record {
  schemes = refl;
  agg = λ scheme. for_scheme-text build_agg_sql scheme "factors_ts" refl refl;
  throughput = λ scheme. for_scheme-text build_throughput_sql scheme "factors_ts" refl refl;
}

tables_for-AreListed : (runtime : String) → AreListed (tables_for runtime)
tables_for-AreListed runtime = elim (tables-cases runtime) [
  | inl e ↦ rw e python-AreListed
  | inr e ↦ rw e typescript-AreListed
]

-- A query that sends listed texts only.
abbrev SendsListed {ℓ} : {A : Type ℓ} → (Execute → Answer A) → Type ℓ
SendsListed fn = (execute : Execute) → fn (listed_only execute) ≡ fn execute

module _ (tables : Tables) (h : AreListed tables) where
  do_schemes-SendsListed : SendsListed (do_schemes tables.summary)
  unfolding do_schemes
  do_schemes-SendsListed execute = listed_only_lem execute _ h.schemes

  do_throughput-SendsListed :
      (scheme : Option String) → SendsListed (do_throughput scheme tables.factors)
  unfolding do_throughput
  do_throughput-SendsListed scheme execute =
      ap (λ a. and_then a (λ rows. answers (first_row rows)))
        (listed_only_lem execute (throughput_statement scheme tables.factors) (h.throughput scheme))

  do_scheme-SendsListed : (scheme : Option String) → SendsListed (do_scheme scheme tables.factors)
  unfolding do_scheme
  do_scheme-SendsListed scheme execute =
      rw (listed_only_lem execute (agg_statement scheme tables.factors) (h.agg scheme)) (
        ap
          (λ a.
            and_then (execute (agg_statement scheme tables.factors))
              (λ rows. and_then a (λ tp_row. answers (first_row rows, tp_row))))
          (do_throughput-SendsListed scheme execute))

tries_of-guarded {ℓ} :
    {A : Type ℓ} (fn : Execute → Answer A)
    → SendsListed fn
    → (rounds : List Round) → tries_of fn (map guarded rounds) ≡ tries_of fn rounds
unfolding tries_of
tries_of-guarded fn h [] = refl
tries_of-guarded {A} fn h (r ∷ rounds) =
    let ih = tries_of-guarded fn h rounds in
    λ i.
      record { attempts = r.attempts; fn = λ conn. h (r.execute conn) i; put_back = r.put_back }
      ∷ ih i

-- A page that sends listed texts only.
abbrev PageSendsListed : (List Round → Pool → Option Payload × Pool) → Type 0
PageSendsListed page =
    (rounds : List Round) (s : Pool) → page (map guarded rounds) s ≡ page rounds s

query_page-SendsListed {ℓ} :
    {A : Type ℓ} (fn : Execute → Answer A) (make : A → Option Payload)
    → SendsListed fn
    → PageSendsListed (query_page fn make)
unfolding run_query
query_page-SendsListed {A} fn make h rounds s = rw (tries_of-guarded fn h rounds) refl

module _ (req : Request) where
  api_schemes-SendsListed : PageSendsListed (api_schemes req)
  unfolding api_schemes
  api_schemes-SendsListed rounds s = elim (Option-cases (runtime_of req)) [
    | inl e ↦ rw (e, api_schemes) refl
    | inr (runtime, e) ↦
        rw (e, api_schemes)
          (query_page-SendsListed (do_schemes (tables_for runtime).summary) schemes_payload
            (do_schemes-SendsListed (tables_for runtime) (tables_for-AreListed runtime)) rounds s)
  ]

  api_scheme-SendsListed : PageSendsListed (api_scheme req)
  unfolding api_scheme
  api_scheme-SendsListed rounds s = elim (Option-cases (scheme_of req)) [
    | inl e ↦ rw (e, api_scheme) refl
    | inr (scheme, e) ↦ elim (Option-cases (runtime_of req)) [
      | inl f ↦ rw (e, f, api_scheme) refl
      | inr (runtime, f) ↦
          rw (e, f, api_scheme)
            (query_page-SendsListed (do_scheme scheme (tables_for runtime).factors)
              (scheme_payload scheme runtime)
              (do_scheme-SendsListed (tables_for runtime) (tables_for-AreListed runtime) scheme)
              rounds s)
    ]
  ]

  api_throughput-SendsListed : PageSendsListed (api_throughput req)
  unfolding api_throughput
  api_throughput-SendsListed rounds s = elim (Option-cases (scheme_of req)) [
    | inl e ↦ rw (e, api_throughput) refl
    | inr (scheme, e) ↦ elim (Option-cases (runtime_of req)) [
      | inl f ↦ rw (e, f, api_throughput) refl
      | inr (runtime, f) ↦
          rw (e, f, api_throughput)
            (query_page-SendsListed (do_throughput scheme (tables_for runtime).factors)
              (throughput_payload scheme)
              (do_throughput-SendsListed (tables_for runtime) (tables_for-AreListed runtime) scheme)
              rounds s)
    ]
  ]

-- A database that refuses every text but the ten that are listed answers the same to every request:
-- nothing that a request holds gets into the text of a statement.
pub do_get-listed :
    (static : String → Writing) (req : Request) (rounds : List Round) (wire error_wire : Wire)
    (s : Pool)
    → do_get static req (map guarded rounds) wire error_wire s
      ≡ do_get static req rounds wire error_wire s
unfolding do_get route_get
do_get-listed static req rounds wire error_wire s =
    rw
      (
        api_schemes-SendsListed req rounds s,
        api_scheme-SendsListed req rounds s,
        api_throughput-SendsListed req rounds s,
        do_get,
        route_get,
      )
      refl
