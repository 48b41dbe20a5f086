-- ===== src/Persist/Worker.antt =====
-- `_flush` and `_worker`: poll, gather, commit, delete.
pub mod Tracks
pub mod Flush
pub mod Run
pub mod Keeps
pub mod End
use jim_tf.Base.{
  ℕ, zero, suc, ◌+◌, String, Option, none, some, Bool, true, false, List, [], ◌∷◌, ◌++◌, length,
  take, drop, Dict, leb, Conversions, if◌then◌else◌,
}
use jim_tf.Sqs.{Message, DeleteEntry}
use jim_tf.Persist.Parse.{Reading, Parsed, RowData, parse_message}
use jim_tf.Persist.Batch.{Batch, add_to_batches}
use jim_tf.Persist.Store.{Database, insert_rows, upsert_all}

-- The three local variables of `_worker`.
pub record Buffers : Type 0 where
  pub rows : List (ℕ × RowData)
  pub receipts : List String
  pub scheme_batches : Dict String Batch

abbrev pub no_buffers : Buffers
no_buffers = record { rows = []; receipts = []; scheme_batches = [] }

-- What the worker has done to the outside: the committed tables, and the calls that deleted messages.
pub record World : Type 0 where
  pub database : Database
  pub delete_calls : List (List DeleteEntry)

-- How the outside answers a flush: a database call raises before the commit is done, or the commit
-- is done and so many delete calls return before one raises.
pub data Answer : Type 0 where
  database_raises : Answer
  commits : ℕ → Answer

pub data Flushed : Type 0 where
  flushed raised : World → Flushed

module _ (c : Conversions) where
  -- `enumerate(batch)` from `j`.
  unfoldable pub delete_entries : ℕ → List String → List DeleteEntry
  delete_entries j [] = []
  delete_entries j (r ∷ rs) =
      record { id = c.str j; receipt_handle = r } ∷ delete_entries (j + 1) rs

  -- `for i in range(0, len(receipts), 10)`, on the rounds that may be left.
  unfoldable pub batches_of_ten : ℕ → List String → List (List DeleteEntry)
  batches_of_ten zero receipts = []
  batches_of_ten (suc rounds) [] = []
  batches_of_ten (suc rounds) (r ∷ rs) =
      delete_entries 0 (take 10 (r ∷ rs)) ∷ batches_of_ten rounds (drop 10 (r ∷ rs))

  unfoldable pub delete_all : ℕ → List (List DeleteEntry) → World → Flushed
  delete_all returns [] w = flushed w
  delete_all zero (batch ∷ batches) w = raised w
  delete_all (suc returns) (batch ∷ batches) w =
      delete_all returns batches (record w { delete_calls = w.delete_calls ++ batch ∷ [] })

  unfoldable pub flush : Answer → Buffers → World → Flushed
  unfolding batches_of_ten delete_all
  flush answer b w = elim b.rows [
    | [] ↦ flushed w
    | _ ∷ _ ↦ elim answer [
      | database_raises ↦ raised w
      | commits returns ↦
          delete_all returns (batches_of_ten (length b.receipts) b.receipts) (record w {
            database = record {
              factors = insert_rows b.rows w.database.factors;
              summary = upsert_all b.scheme_batches w.database.summary;
            };
          })
    ]
  ]

  -- The body of `for msg in messages`; a message that does not parse is skipped.
  unfoldable pub add_parsed : Parsed → Buffers → Buffers
  add_parsed p b = record {
    rows = b.rows ++ (p.sequence, p.row) ∷ [];
    receipts = b.receipts ++ p.receipt ∷ [];
    scheme_batches = add_to_batches p.scheme p.ts_ms b.scheme_batches;
  }

  unfoldable pub gather : List (Message × Reading) → Buffers → Buffers
  unfolding add_parsed
  gather [] b = b
  gather ((m, now) ∷ ms) b =
      gather ms (elim (parse_message c m now) [ none ↦ b | some p ↦ add_parsed p b ])

-- What one round receives, and how its flush is answered.
pub record Poll : Type 0 where
  pub messages : List (Message × Reading)
  pub answer : Answer

pub data Outcome : Type 0 where
  running : Buffers → World → Outcome
  finished crashed : World → Outcome

module _ (c : Conversions) (commit_size : ℕ) where
  -- `if not messages`: `wait == 20` says that the buffers were empty before the poll.
  unfoldable pub on_empty : Answer → Buffers → World → Outcome
  on_empty answer b w = elim (flush c answer b w) [
    | raised w' ↦ crashed w'
    | flushed w' ↦ elim b.rows [ [] ↦ finished w' | _ ∷ _ ↦ running no_buffers w' ]
  ]

  -- `if len(rows) >= COMMIT_SIZE`.
  unfoldable pub on_gathered : Answer → Buffers → World → Outcome
  on_gathered answer b w =
      if leb commit_size (length b.rows)
      then elim (flush c answer b w) [ raised w' ↦ crashed w' | flushed w' ↦ running no_buffers w' ]
      else running b w

  unfoldable pub worker_step : Poll → Buffers → World → Outcome
  worker_step p b w = elim p.messages [
    | [] ↦ on_empty p.answer b w
    | m ∷ ms ↦ on_gathered p.answer (gather c (m ∷ ms) b) w
  ]

  -- `_worker` over the rounds; `running` at the end means that it would poll again.
  unfoldable pub worker : List Poll → Buffers → World → Outcome
  worker [] b w = running b w
  worker (p ∷ ps) b w = elim (worker_step p b w) [
    | running b' w' ↦ worker ps b' w'
    | finished w' ↦ finished w'
    | crashed w' ↦ crashed w'
  ]
