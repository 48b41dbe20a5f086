-- ===== src/Persist/Older.antt =====
-- `_worker` of infrastructure/code/persist.py, the older copy, which commits after every poll. Its
-- `_uuid7` and `_parse_message` are those of the newer one.
pub mod Same
use jim_tf.Base.{ℕ, Option, none, some, List, [], ◌∷◌, length, Conversions}
use jim_tf.Persist.Store.{insert_rows, upsert_all}
use jim_tf.Persist.Worker.{
  Buffers, no_buffers, World, Answer, database_raises, commits, Flushed, flushed, raised,
  batches_of_ten, delete_all, gather, Poll, Outcome, running, finished, crashed,
}

-- `if rows`: the tables are changed and committed, or a call raises.
unfoldable pub commit_rows : Answer → Buffers → World → Option World
commit_rows answer b w = elim b.rows [
  | [] ↦ some w
  | _ ∷ _ ↦ elim answer [
    | database_raises ↦ none
    | commits returns ↦ some (record w {
      database = record {
        factors = insert_rows b.rows w.database.factors;
        summary = upsert_all b.scheme_batches w.database.summary;
      };
    })
  ]
]

-- How many delete calls return.
abbrev pub returns_of : Answer → ℕ
returns_of database_raises = 0
returns_of (commits returns) = returns

module _ (c : Conversions) where
  -- `if receipts`
  unfoldable pub delete_receipts : Answer → Buffers → World → Flushed
  unfolding batches_of_ten delete_all
  delete_receipts answer b w = elim b.receipts [
    | [] ↦ flushed w
    | _ ∷ _ ↦ delete_all c (returns_of answer) (batches_of_ten c (length b.receipts) b.receipts) w
  ]

  unfoldable pub store_batch : Answer → Buffers → World → Flushed
  unfolding commit_rows delete_receipts
  store_batch answer b w = elim (commit_rows answer b w) [
    | none ↦ raised w
    | some w' ↦ delete_receipts answer b w'
  ]

  -- The buffers are new in every round, and the first empty poll ends the loop.
  unfoldable pub older_worker : List Poll → World → Outcome
  unfolding store_batch gather
  older_worker [] w = running no_buffers w
  older_worker (p ∷ ps) w = elim p.messages [
    | [] ↦ finished w
    | m ∷ ms ↦ elim (store_batch p.answer (gather c (m ∷ ms) no_buffers) w) [
      | raised w' ↦ crashed w'
      | flushed w' ↦ older_worker ps w'
    ]
  ]
