-- ===== src/Web/Retries.antt =====
-- What the two retry loops give, and the connections that are lost in them.
use jim_tf.Base.{
  ℕ, ◌+◌, ◌≡◌, ◌≤◌, refl, Bool, true, false, if◌then◌else◌, String, Option, none, some, List, [],
  ◌∷◌, get_or, arith,
}
use jim_tf.Web.{
  Attempt, refused, closed, stale, live, escapes, keeps, Pool, Got, connected, raises_last, escaped,
  take_conn, put_conn, reset_pool, get_conn_with_retry, Answer, answers, operational, other,
  Queried, returned, broke, Try, query_with_retry,
}

-- The first attempt that ends the loop.
abbrev pub decided : List Attempt → Option Got
decided [] = none
decided (refused exc ∷ rest) = decided rest
decided (closed ∷ rest) = decided rest
decided (stale works ∷ rest) = decided rest
decided (live conn ∷ rest) = some (connected conn)
decided (escapes exc ∷ rest) = some (escaped exc)
decided (keeps exc ∷ rest) = some (escaped exc)

-- The last `OperationalError`, if there was one; a closed connection is none.
abbrev pub last_error : Option String → List Attempt → Option String
last_error last [] = last
last_error last (refused exc ∷ rest) = last_error (some exc) rest
last_error last (stale works ∷ rest) = last_error (some "stale connection") rest
last_error last (closed ∷ rest) = last_error last rest
last_error last (live conn ∷ rest) = last_error last rest
last_error last (escapes exc ∷ rest) = last_error last rest
last_error last (keeps exc ∷ rest) = last_error last rest

-- `_get_conn_with_retry` returns the first connection that passes the test query, unless an exception
-- that it does not catch comes first; without either it raises the last `OperationalError`, and
-- `None`, which is a `TypeError`, if every connection was closed.
pub get_conn_with_retry-exact :
    (attempts : List Attempt) (attempt : ℕ) (last_err : Option String) (s : Pool)
    → (get_conn_with_retry attempts attempt last_err s).0
      ≡ get_or (decided attempts) (raises_last (last_error last_err attempts))
unfolding get_conn_with_retry
get_conn_with_retry-exact [] n last s = refl
get_conn_with_retry-exact (refused exc ∷ rest) n last s =
    get_conn_with_retry-exact rest (n + 1) (some exc) (reset_pool n s)
get_conn_with_retry-exact (closed ∷ rest) n last s =
    get_conn_with_retry-exact rest (n + 1) last (put_conn true (take_conn s))
get_conn_with_retry-exact (stale works ∷ rest) n last s =
    get_conn_with_retry-exact rest (n + 1) (some "stale connection")
      (reset_pool n (put_conn works (take_conn s)))
get_conn_with_retry-exact (live conn ∷ rest) n last s = refl
get_conn_with_retry-exact (escapes exc ∷ rest) n last s = refl
get_conn_with_retry-exact (keeps exc ∷ rest) n last s = refl

-- How many connections the caller has.
abbrev pub taken : Got → ℕ
taken (connected conn) = 1
taken (raises_last last) = 0
taken (escaped exc) = 0

-- The calls of `putconn` that raise.
abbrev pub failing : List Attempt → ℕ
failing [] = 0
failing (refused exc ∷ rest) = failing rest
failing (closed ∷ rest) = failing rest
failing (stale works ∷ rest) = (if works then 0 else 1) + failing rest
failing (live conn ∷ rest) = 0
failing (escapes exc ∷ rest) = 0
failing (keeps exc ∷ rest) = 1

abbrev pub failing_in {ℓ} : {A : Type ℓ} → List (Try A) → ℕ
failing_in [] = 0
failing_in (t ∷ rest) = failing t.attempts + (if t.put_back then 0 else 1) + failing_in rest

-- From one number of connections to another, at most some are added and none is put back too often.
abbrev pub Leaks : ℕ → ℕ → ℕ → Type 0
Leaks before lost after = (before ≤ after) × (after ≤ before + lost)

pub put_conn_held :
    (works : Bool) (s : Pool)
    → 1 ≤ s.held
    → (put_conn works s).held + 1 ≡ s.held + (if works then 0 else 1)
unfolding put_conn
put_conn_held true s h = omega (arith, h)
put_conn_held false s h = refl

pub get_conn_held :
    (attempts : List Attempt) (attempt : ℕ) (last_err : Option String) (s : Pool)
    → Leaks
        (s.held + taken (get_conn_with_retry attempts attempt last_err s).0)
        (failing attempts)
        (get_conn_with_retry attempts attempt last_err s).1.held
unfolding get_conn_with_retry take_conn reset_pool
get_conn_held [] n last s = (omega arith, omega arith)
get_conn_held (refused exc ∷ rest) n last s = get_conn_held rest (n + 1) (some exc) (reset_pool n s)
get_conn_held (closed ∷ rest) n last s =
    let p = put_conn_held true (take_conn s) (omega arith) in
    let h = get_conn_held rest (n + 1) last (put_conn true (take_conn s)) in
    (omega (arith, p, h.0), omega (arith, p, h.1))
get_conn_held (stale works ∷ rest) n last s =
    let p = put_conn_held works (take_conn s) (omega arith) in
    let h =
      get_conn_held rest (n + 1) (some "stale connection")
        (reset_pool n (put_conn works (take_conn s))) in
    (omega (arith, p, h.0), omega (arith, p, h.1))
get_conn_held (live conn ∷ rest) n last s = (omega arith, omega arith)
get_conn_held (escapes exc ∷ rest) n last s = (omega arith, omega arith)
get_conn_held (keeps exc ∷ rest) n last s = (omega arith, omega arith)

-- However the attempts and the queries end, `_query_with_retry` leaves out at most as many connections
-- as there are calls of `putconn` that raise, and puts none back that it has not taken.
pub query_with_retry-held {ℓ} :
    {A : Type ℓ} (tries : List (Try A)) (last_err : Option String) (s : Pool)
    → Leaks s.held (failing_in tries) (query_with_retry tries last_err s).1.held
unfolding query_with_retry
query_with_retry-held {A} [] last s = (omega arith, omega arith)
query_with_retry-held {A} (t ∷ rest) last s =
    by_got (get_conn_with_retry t.attempts 0 none s) (get_conn_held t.attempts 0 none s)
      (λ l s'. query_with_retry-held rest l s')
  where
    by_got :
        (got : Got × Pool)
        → Leaks (s.held + taken got.0) (failing t.attempts) got.1.held
        → ((l : Option String) (s' : Pool)
            → Leaks s'.held (failing_in rest) (query_with_retry rest l s').1.held)
        → Leaks s.held
            (failing_in (t ∷ rest))
            (elim got.0 as (λ g. Queried A × Pool) [
              | raises_last none ↦ (broke "TypeError", got.1)
              | raises_last (some exc) ↦ query_with_retry rest (some exc) got.1
              | escaped exc ↦ (broke exc, got.1)
              | connected conn ↦ elim (t.fn conn) [
                | answers a ↦ (returned a, put_conn t.put_back got.1)
                | operational exc ↦ query_with_retry rest (some exc) (put_conn t.put_back got.1)
                | other exc ↦ (broke exc, put_conn t.put_back got.1)
              ]
            ]).1.held
    by_got (raises_last none, p) h ih = (omega (arith, h.0), omega (arith, h.1))
    by_got (raises_last (some exc), p) h ih =
        let k = ih (some exc) p in (omega (arith, h.0, k.0), omega (arith, h.1, k.1))
    by_got (escaped exc, p) h ih = (omega (arith, h.0), omega (arith, h.1))
    by_got (connected conn, p) h ih = by_answer (t.fn conn)
      where
        back : (put_conn t.put_back p).held + 1 ≡ p.held + (if t.put_back then 0 else 1)
        back = put_conn_held t.put_back p (omega (arith, h.0))

        by_answer :
            (a : Answer A)
            → Leaks s.held
                (failing_in (t ∷ rest))
                (elim a as (λ b. Queried A × Pool) [
                  | answers b ↦ (returned b, put_conn t.put_back p)
                  | operational exc ↦ query_with_retry rest (some exc) (put_conn t.put_back p)
                  | other exc ↦ (broke exc, put_conn t.put_back p)
                ]).1.held
        by_answer (answers b) = (omega (arith, back, h.0), omega (arith, back, h.1))
        by_answer (operational exc) =
            let k = ih (some exc) (put_conn t.put_back p) in
            (omega (arith, back, h.0, k.0), omega (arith, back, h.1, k.1))
        by_answer (other exc) = (omega (arith, back, h.0), omega (arith, back, h.1))
