-- ===== src/Persist/Pool/Once.antt =====
-- The identifiers in the table stay distinct, whatever the pool does.
use jim_tf.Base.{String, ℕ, zero, suc, List, [], ◌∷◌, Distinct, nat_key, Conversions}
use jim_tf.Persist.Worker.{World, Poll, Outcome, running, finished, crashed, worker_step}
use jim_tf.Persist.Worker.Keeps.{world_of, step_keeps, insert_rows-Distinct}
use jim_tf.Persist.Setup.{Server}
use jim_tf.Persist.Pool.{Thread, polling, ended, broken, after, round, round_at, run_pool, persist}

abbrev Once : World → Type 0
Once w = Distinct w.database.factors

after-Once : (o : Outcome) → Once (world_of o) → Once (after o).1
unfolding after
after-Once (running b w) h = h
after-Once (finished w) h = h
after-Once (crashed w) h = h

module _ (c : Conversions) (commit_size : ℕ) where
  round-Once : (p : Poll) (t : Thread) (w : World) → Once w → Once (round c commit_size p t w).1
  unfolding round
  round-Once p (polling b) w h =
      after-Once (worker_step c commit_size p b w)
        (step_keeps c Distinct insert_rows-Distinct commit_size p b w h)
  round-Once p ended w h = h
  round-Once p broken w h = h

  round_at-Once :
      (i : ℕ) (p : Poll) (ts : List Thread) (w : World)
      → Once w
      → Once (round_at c commit_size i p ts w).1
  unfolding round_at
  round_at-Once i p [] w h = h
  round_at-Once zero p (t ∷ ts) w h = round-Once p t w h
  round_at-Once (suc i) p (t ∷ ts) w h = round_at-Once i p ts w h

  run_pool-Once :
      (rounds : List (ℕ × Poll)) (ts : List Thread) (w : World)
      → Once w
      → Once (run_pool c commit_size rounds (record { threads = ts; world = w })).world
  unfolding run_pool
  run_pool-Once [] ts w h = h
  run_pool-Once ((i, p) ∷ rounds) ts w h = run_pool-Once rounds _ _ (round_at-Once i p ts w h)

  pub persist-Distinct :
      (name admin_db : String) (servers : List Server) (rounds : List (ℕ × Poll)) (w : World)
      → Distinct w.database.factors
      → Distinct (persist c commit_size name admin_db servers rounds w).world.database.factors
  unfolding persist
  persist-Distinct name admin_db servers rounds w h = run_pool-Once rounds _ w h
