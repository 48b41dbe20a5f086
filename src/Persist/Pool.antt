-- ===== src/Persist/Pool.antt =====
-- The workers of persist.py at once: rounds of several `_worker` threads in any order, over one
-- database. A round is a poll with what it leads to; the database makes each commit one step, and
-- the deletions of a flush are taken with it.
pub mod Step
pub mod Rounds
pub mod Account
pub mod Ends
pub mod Once
use jim_tf.Base.{
  ℕ, zero, suc, String, Option, none, some, Bool, true, false, List, [], ◌∷◌, ◌++◌, Conversions,
  ◌||◌,
}
use jim_tf.Persist.Setup.{Server, ensure_db}
use jim_tf.Persist.Parse.{Parsed}
use jim_tf.Persist.Worker.{
  Buffers, no_buffers, World, Poll, Outcome, running, finished, crashed, worker_step,
}

-- A thread of the pool; `broken` has ended by an exception.
pub data Thread : Type 0 where
  polling : Buffers → Thread
  ended broken : Thread

pub record Pool : Type 0 where
  pub threads : List Thread
  pub world : World

-- `_worker` connects first; an exception of `_ensure_db` ends it.
unfoldable pub opened : String → String → Server → Thread
unfolding ensure_db
opened name admin_db server = elim (ensure_db name admin_db server).0 [
  | none ↦ polling no_buffers
  | some exc ↦ broken
]

-- `pool.submit(_worker, i) for i in range(WORKER_COUNT)`, by how each connection is answered.
unfoldable pub submitted : String → String → List Server → List Thread
unfolding opened
submitted name admin_db [] = []
submitted name admin_db (server ∷ servers) =
    opened name admin_db server ∷ submitted name admin_db servers

unfoldable pub after : Outcome → Thread × World
after (running b w) = (polling b, w)
after (finished w) = (ended, w)
after (crashed w) = (broken, w)

-- `f.result()` for each future: an exception of a worker is raised again.
unfoldable pub raises : List Thread → Bool
raises [] = false
raises (broken ∷ ts) = true
raises (t ∷ ts) = raises ts

module _ (c : Conversions) (commit_size : ℕ) where
  -- A round of one thread.
  unfoldable pub round : Poll → Thread → World → Thread × World
  unfolding after
  round p (polling b) w = after (worker_step c commit_size p b w)
  round p ended w = (ended, w)
  round p broken w = (broken, w)

  -- A round of the thread at a place of the list.
  unfoldable pub round_at : ℕ → Poll → List Thread → World → List Thread × World
  unfolding round
  round_at i p [] w = ([], w)
  round_at zero p (t ∷ ts) w = let (t', w') = round p t w in (t' ∷ ts, w')
  round_at (suc i) p (t ∷ ts) w = let (ts', w') = round_at i p ts w in (t ∷ ts', w')

  -- Rounds in the order in which they happen.
  unfoldable pub run_pool : List (ℕ × Poll) → Pool → Pool
  unfolding round_at
  run_pool [] s = s
  run_pool ((i, p) ∷ rounds) s =
      let (ts, w) = round_at i p s.threads s.world in
      run_pool rounds (record { threads = ts; world = w })

  -- The end of the program: the threads are submitted, and their rounds happen.
  unfoldable pub persist : String → String → List Server → List (ℕ × Poll) → World → Pool
  unfolding run_pool submitted
  persist name admin_db servers rounds w =
      run_pool rounds (record { threads = submitted name admin_db servers; world = w })
