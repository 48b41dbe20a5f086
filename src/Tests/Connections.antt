-- ===== src/Tests/Connections.antt =====
-- Examples for the web server's connections.
use jim_tf.Base.{ℕ, ◌≡◌, true, false, none, List, [], ◌∷◌, get_or}
use jim_tf.Web.{
  Attempt, closed, stale, live, Pool, raises_last, get_conn_with_retry, answers, operational, Try,
  query_with_retry,
}
use jim_tf.Web.Retries.{
  failing_in, Leaks, decided, last_error, get_conn_with_retry-exact, query_with_retry-held,
}

abbrev two_open : Pool
two_open = record { is_open = true; held = 2; slept = 0 }

abbrev all_closed : List Attempt
all_closed = closed ∷ closed ∷ closed ∷ []

get_conn_with_retry-exact_example :
    (get_conn_with_retry all_closed 0 none two_open).0
    ≡ get_or (decided all_closed) (raises_last (last_error none all_closed))
get_conn_with_retry-exact_example = get_conn_with_retry-exact all_closed 0 none two_open

abbrev tries : List (Try ℕ)
tries =
    record { attempts = stale false ∷ live 7 ∷ []; fn = λ c. operational "gone"; put_back = true }
    ∷ record { attempts = live 8 ∷ []; fn = λ c. answers 5; put_back = true }
    ∷ []

query_with_retry-held_example :
    Leaks two_open.held (failing_in tries) (query_with_retry tries none two_open).1.held
query_with_retry-held_example = query_with_retry-held tries none two_open
