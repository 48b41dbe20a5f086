-- ===== src/Web.antt =====
-- infrastructure/web/server.py: how a page gets a database connection, and runs its query with it.
pub mod Retries
pub mod Sql
pub mod Rows
pub mod Pages
pub mod Start
use jim_tf.Base.{
  ℕ, ◌+◌, ◌-◌, String, Option, none, some, Bool, true, false, List, [], ◌∷◌, if◌then◌else◌,
}

-- What one round of the loop in `_get_conn_with_retry` meets: an `OperationalError` before there is a
-- connection, a connection that is closed and put back, one that fails the test query, with whether its
-- `putconn` works, one that passes it, an exception that the loop does not catch before there is a
-- connection, or such an exception of the `putconn` of a closed one.
pub data Attempt : Type 0 where
  refused : String → Attempt
  closed : Attempt
  stale : Bool → Attempt
  live : ℕ → Attempt
  escapes keeps : String → Attempt

-- The connection pool as one thread sees it: whether there is an open one, how many connections are
-- taken from it and not put back, and how many half seconds the thread has slept.
pub record Pool : Type 0 where
  pub is_open : Bool
  pub held : ℕ
  pub slept : ℕ

-- A connection, `raise last_err`, or an exception that is not caught. Where `last_err` is `None`, which
-- `none` says, Python raises a `TypeError`.
pub data Got : Type 0 where
  connected : ℕ → Got
  raises_last : Option String → Got
  escaped : String → Got

-- `getconn` and `putconn`; a `putconn` that raises leaves the connection out.
unfoldable pub take_conn : Pool → Pool
take_conn s = record s { is_open = true; held = s.held + 1 }

unfoldable pub put_conn : Bool → Pool → Pool
put_conn works s = if works then record s { held = s.held - 1 } else s

-- `except psycopg2.OperationalError`: the pool is closed, and the thread sleeps.
unfoldable pub reset_pool : ℕ → Pool → Pool
reset_pool attempt s = record s { is_open = false; slept = s.slept + (attempt + 1) }

-- `_get_conn_with_retry`, over what its rounds meet; `attempt` and `last_err` are its variables.
unfoldable pub get_conn_with_retry : List Attempt → ℕ → Option String → Pool → Got × Pool
unfolding take_conn put_conn reset_pool
get_conn_with_retry [] attempt last_err s = (raises_last last_err, s)
get_conn_with_retry (refused exc ∷ rest) attempt last_err s =
    get_conn_with_retry rest (attempt + 1) (some exc) (reset_pool attempt s)
get_conn_with_retry (closed ∷ rest) attempt last_err s =
    get_conn_with_retry rest (attempt + 1) last_err (put_conn true (take_conn s))
get_conn_with_retry (stale works ∷ rest) attempt last_err s =
    get_conn_with_retry rest (attempt + 1) (some "stale connection")
      (reset_pool attempt (put_conn works (take_conn s)))
get_conn_with_retry (live conn ∷ rest) attempt last_err s = (connected conn, take_conn s)
get_conn_with_retry (escapes exc ∷ rest) attempt last_err s = (escaped exc, s)
get_conn_with_retry (keeps exc ∷ rest) attempt last_err s = (escaped exc, take_conn s)

-- What `fn(conn)` gives: a result, an `OperationalError`, or another exception.
pub data Answer {ℓ} (A : Type ℓ) : Type ℓ where
  answers : A → Answer A
  operational other : String → Answer A

pub data Queried {ℓ} (A : Type ℓ) : Type ℓ where
  returned : A → Queried A
  gave_up : Option String → Queried A
  broke : String → Queried A

-- One round of `_query_with_retry`: what its `_get_conn_with_retry` meets, its `fn`, and whether the
-- `putconn` after it works.
pub record Try {ℓ} (A : Type ℓ) : Type ℓ where
  pub attempts : List Attempt
  pub fn : ℕ → Answer A
  pub put_back : Bool

-- `_query_with_retry`, with `_db_conn` around `fn`, which calls `putconn` on every path and passes over its
-- exceptions.
-- `raise None` is a `TypeError`, which the loop does not catch.
unfoldable pub query_with_retry {ℓ} :
    {A : Type ℓ} → List (Try A) → Option String → Pool → Queried A × Pool
unfolding put_conn get_conn_with_retry
query_with_retry [] last_err s = (gave_up last_err, s)
query_with_retry (t ∷ rest) last_err s =
    let got = get_conn_with_retry t.attempts 0 none s in
    elim got.0 [
      | raises_last none ↦ (broke "TypeError", got.1)
      | raises_last (some exc) ↦ query_with_retry rest (some exc) got.1
      | escaped exc ↦ (broke exc, got.1)
      | connected conn ↦ elim (t.fn conn) [
        | answers a ↦ (returned a, put_conn t.put_back got.1)
        | operational exc ↦ query_with_retry rest (some exc) (put_conn t.put_back got.1)
        | other exc ↦ (broke exc, put_conn t.put_back got.1)
      ]
    ]
