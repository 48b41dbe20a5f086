-- ===== src/Persist/Worker/Keeps.antt =====
-- What every insertion of rows keeps true of the table, a round of `_worker` keeps true, however it
-- ends.
use jim_tf.Base.{
  ℕ, zero, suc, ◌≡◌, refl, List, [], ◌∷◌, Dict, Distinct, nat_key, true, length, leb, Conversions,
  insert-Distinct, Option-cases, Bool-cases, inl, inr, lookup,
}
use jim_tf.Sqs.{DeleteEntry}
use jim_tf.Persist.Parse.{RowData}
use jim_tf.Persist.Store.{insert_row, insert_rows}
use jim_tf.Persist.Worker.{
  Buffers, World, Answer, database_raises, commits, Flushed, flushed, raised, batches_of_ten,
  delete_all, flush, gather, Poll, Outcome, running, finished, crashed, on_empty, on_gathered,
  worker_step,
}

-- The tables after a flush and after a run.
abbrev pub flushed_world : Flushed → World
flushed_world (flushed w) = w
flushed_world (raised w) = w

abbrev pub world_of : Outcome → World
world_of (running b w) = w
world_of (finished w) = w
world_of (crashed w) = w

module _ (c : Conversions) (P : Dict ℕ RowData → Type 0)
    (keeps : (rows : List (ℕ × RowData)) (d : Dict ℕ RowData) → P d → P (insert_rows rows d)) where
  abbrev Kept : World → Type 0
  Kept w = P w.database.factors

  deletes_keep :
      (k : ℕ) (calls : List (List DeleteEntry)) (w : World)
      → Kept w
      → Kept (flushed_world (delete_all c k calls w))
  unfolding delete_all
  deletes_keep k [] w h = h
  deletes_keep zero (x ∷ xs) w h = h
  deletes_keep (suc k) (x ∷ xs) w h = deletes_keep k xs _ h

  flush_keeps :
      (answer : Answer) (b : Buffers) (w : World)
      → Kept w
      → Kept (flushed_world (flush c answer b w))
  unfolding flush
  flush_keeps answer b w h = by_rows b.rows refl answer
    where
      by_rows :
          (rows : List (ℕ × RowData))
          → b.rows ≡ rows
          → (answer : Answer) → Kept (flushed_world (flush c answer b w))
      by_rows [] e answer = rw (e, flush) h
      by_rows (x ∷ xs) e database_raises = rw (e, flush) h
      by_rows (x ∷ xs) e (commits k) =
          rw (e, flush)
            (deletes_keep k (batches_of_ten c (length b.receipts) b.receipts) _
              (keeps b.rows w.database.factors h))

  empty_keeps :
      (commit_size : ℕ) (answer : Answer) (b : Buffers) (w : World)
      → Kept w
      → Kept (world_of (on_empty c commit_size answer b w))
  empty_keeps commit_size answer b w h = by_end (flush c answer b w) refl b.rows refl
    where
      by_end :
          (r : Flushed)
          → flush c answer b w ≡ r
          → (rows : List (ℕ × RowData)) → b.rows ≡ rows
          → Kept (world_of (on_empty c commit_size answer b w))
      by_end (raised w') e rows q =
          unfold on_empty in rw (e, on_empty) (let k = flush_keeps answer b w h in rw e at k)
      by_end (flushed w') e [] q =
          unfold on_empty in rw (e, q, on_empty) (let k = flush_keeps answer b w h in rw e at k)
      by_end (flushed w') e (x ∷ xs) q =
          unfold on_empty in rw (e, q, on_empty) (let k = flush_keeps answer b w h in rw e at k)

  gathered_keeps :
      (commit_size : ℕ) (answer : Answer) (b : Buffers) (w : World)
      → Kept w
      → Kept (world_of (on_gathered c commit_size answer b w))
  gathered_keeps commit_size answer b w h = elim (Bool-cases (leb commit_size (length b.rows))) [
    | inl full ↦ by_end full (flush c answer b w) refl
    | inr more ↦ unfold on_gathered in rw (more, on_gathered) h
  ]
    where
      by_end :
          leb commit_size (length b.rows) ≡ true
          → (r : Flushed) → flush c answer b w ≡ r
          → Kept (world_of (on_gathered c commit_size answer b w))
      by_end full (raised w') e =
          unfold on_gathered in
          rw (full, e, on_gathered) (let k = flush_keeps answer b w h in rw e at k)
      by_end full (flushed w') e =
          unfold on_gathered in
          rw (full, e, on_gathered) (let k = flush_keeps answer b w h in rw e at k)

  pub step_keeps :
      (commit_size : ℕ) (p : Poll) (b : Buffers) (w : World)
      → Kept w
      → Kept (world_of (worker_step c commit_size p b w))
  unfolding worker_step
  step_keeps commit_size p b w h =
      elim p.messages
        as (λ ms. Kept (
          world_of (elim ms [
            | [] ↦ on_empty c commit_size p.answer b w
            | m ∷ ms ↦ on_gathered c commit_size p.answer (gather c (m ∷ ms) b) w
          ]))) [
            | [] ↦ empty_keeps commit_size p.answer b w h
            | m ∷ ms ↦ gathered_keeps commit_size p.answer (gather c (m ∷ ms) b) w h
          ]

insert_row-Distinct :
    (q : ℕ) (row : RowData) (d : Dict ℕ RowData) → Distinct d → Distinct (insert_row q row d)
insert_row-Distinct q row d h = elim (Option-cases (lookup q d)) [
  | inl e ↦ unfold insert_row in rw (e, insert_row) (insert-Distinct q row d h)
  | inr (r, e) ↦ unfold insert_row in rw (e, insert_row) h
]

pub insert_rows-Distinct :
    (rows : List (ℕ × RowData)) (d : Dict ℕ RowData) → Distinct d → Distinct (insert_rows rows d)
unfolding insert_rows
insert_rows-Distinct [] d h = h
insert_rows-Distinct ((q, row) ∷ rows) d h =
    insert_rows-Distinct rows (insert_row q row d) (insert_row-Distinct q row d h)
