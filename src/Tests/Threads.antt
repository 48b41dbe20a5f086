-- ===== src/Tests/Threads.antt =====
-- Two workers of persist.py, one of which stores a message that both could have had.
use jim_tf.Base.{
  ℕ, ◌+◌, ◌≡◌, String, true, none, is_some, List, [], ◌∷◌, lookup, nat_key, string_key, ◌==◌, total,
  All,
}
use jim_tf.Sqs.{string_value}
use jim_tf.Persist.Setup.{Server, ensure_db}
use jim_tf.Persist.Parse.{parse_message}
use jim_tf.Persist.Worker.{Poll, commits, worker_step, on_empty, on_gathered, flush, gather}
use jim_tf.Persist.Worker.Tracks.{receipts_of}
use jim_tf.Persist.Pool.{persist, round_at, run_pool, round, after, opened, submitted}
use jim_tf.Persist.Pool.Account.{Accounted, parsed_over, persist-Accounted}
use jim_tf.Persist.Pool.Ends.{AllEnded, hit, count_of, seen, end, persist-exact}
use jim_tf.Tests.{few}
use jim_tf.Tests.Stored.{result, reading, empty_world}

abbrev empty : Poll
empty = record { messages = []; answer = commits 1 }

-- The first thread polls a message, the second finds nothing and ends, and the first goes on.
abbrev rounds : List (ℕ × Poll)
rounds =
    (0, record { messages = (result, reading) ∷ []; answer = commits 1 })
    ∷ (1, empty)
    ∷ (0, empty)
    ∷ (0, empty)
    ∷ []

abbrev servers : List Server
servers =
    record { first = none; admin = none; create = none; second = none; table = λ s. none }
    ∷ record { first = none; admin = none; create = none; second = none; table = λ s. none }
    ∷ []

all_ended : AllEnded (end few 100 empty_world "factors" "postgres" servers rounds).threads
unfolding persist run_pool round_at round after submitted opened ensure_db worker_step on_empty
    on_gathered flush gather parse_message string_value
all_ended = tt

persist-exact_example :
    ((s : String)
      → count_of (
          lookup s
            (end few 100 empty_world "factors" "postgres" servers rounds).world.database.summary)
        ≡ count_of (lookup s empty_world.database.summary)
          + total
              (λ m. hit (m.scheme == s))
              (seen few 100 empty_world "factors" "postgres" servers rounds))
    × All
        (λ m.
          is_some (
            lookup m.sequence
              (end few 100 empty_world "factors" "postgres" servers rounds).world.database.factors)
          ≡ true)
        (seen few 100 empty_world "factors" "postgres" servers rounds)
    × ((r : String)
        → total
            (λ x. hit (x == r))
            (receipts_of
              (end few 100 empty_world "factors" "postgres" servers rounds).world.delete_calls)
          ≡ total (λ x. hit (x == r)) (receipts_of empty_world.delete_calls)
            + total
                (λ m. hit (m.receipt == r))
                (seen few 100 empty_world "factors" "postgres" servers rounds))
persist-exact_example =
    persist-exact few 100 empty_world "factors" "postgres" servers rounds all_ended

persist-Accounted_example :
    Accounted empty_world
      (parsed_over few 100 rounds (submitted "factors" "postgres" servers) empty_world)
      (persist few 100 "factors" "postgres" servers rounds empty_world).threads
      (persist few 100 "factors" "postgres" servers rounds empty_world).world
persist-Accounted_example =
    persist-Accounted few 100 empty_world "factors" "postgres" servers rounds
