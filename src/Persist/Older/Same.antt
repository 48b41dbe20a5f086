-- ===== src/Persist/Older/Same.antt =====
-- The older worker is the newer one with COMMIT_SIZE 1.
use jim_tf.Base.{
  ◌≡◌, refl, sym, ap, ◌∙◌, inl, inr, String, true, List, [], ◌∷◌, map, length, leb, Conversions,
  Option-cases, arith,
}
use jim_tf.Sqs.{Message}
use jim_tf.Persist.Parse.{Reading, Parsed, parse_message}
use jim_tf.Persist.Worker.{
  Buffers, no_buffers, World, Answer, database_raises, commits, Flushed, flushed, raised, flush,
  gather, Poll, Outcome, running, finished, crashed, on_empty, on_gathered, worker_step, worker,
}
use jim_tf.Persist.Worker.Tracks.{parsed_of, Holds, gather-Holds}
use jim_tf.Persist.Worker.Run.{no_buffers-Holds}
use jim_tf.Persist.Older.{commit_rows, delete_receipts, store_batch, older_worker}

module _ (c : Conversions) where
  gather_none :
      (ms : List (Message × Reading)) (b : Buffers) → parsed_of c ms ≡ [] → gather c ms b ≡ b
  unfolding gather
  gather_none [] b h = refl
  gather_none ((m, now) ∷ ms) b h = elim (Option-cases (parse_message c m now)) [
    | inl e ↦ rw (e, gather) (gather_none ms b (rw (e, parsed_of) at h))
    | inr (p, e) ↦ absurd (let g = rw (e, parsed_of) at h in cc)
  ]

  filled :
      (receipts : List String) (r : String) (rs : List String)
      → receipts ≡ r ∷ rs
      → (some_left none_left : Flushed)
      → (elim receipts as (λ l. Flushed) [ [] ↦ none_left | _ ∷ _ ↦ some_left ]) ≡ some_left
  filled receipts r rs e x y = rw e refl

  -- With nothing parsed, nothing is stored.
  store_nothing : (answer : Answer) (w : World) → store_batch c answer no_buffers w ≡ flushed w
  unfolding store_batch commit_rows delete_receipts
  store_nothing answer w = refl

  -- Rows and receipts of parsed messages are stored by a flush.
  store_batch-flush :
      (answer : Answer) (p : Parsed) (ps : List Parsed) (b : Buffers) (w : World)
      → Holds (p ∷ ps) b
      → store_batch c answer b w ≡ flush c answer b w
  unfolding store_batch commit_rows delete_receipts flush
  store_batch-flush database_raises p ps b w h = rw (h.rows, store_batch, commit_rows, flush) refl
  store_batch-flush (commits n) p ps b w h =
      rw (h.rows, store_batch, commit_rows, flush)
        (filled b.receipts p.receipt (map (λ q. q.receipt) ps) h.receipts _ _)

  -- How a round ends that has messages.
  abbrev round_of : Flushed → Outcome
  round_of (raised w) = crashed w
  round_of (flushed w) = running no_buffers w

  abbrev stored_round : Answer → List (Message × Reading) → World → Outcome
  stored_round answer ms w = round_of (store_batch c answer (gather c ms no_buffers) w)

  nothing_gathered :
      (answer : Answer) (w : World) → on_gathered c 1 answer no_buffers w ≡ running no_buffers w
  unfolding on_gathered
  nothing_gathered answer w = refl

  gathered_round :
      (answer : Answer) (ms : List (Message × Reading)) (w : World)
      → on_gathered c 1 answer (gather c ms no_buffers) w ≡ stored_round answer ms w
  unfolding on_gathered
  gathered_round answer ms w = by_parsed (parsed_of c ms) refl
    where
      by_parsed :
          (parsed : List Parsed)
          → parsed_of c ms ≡ parsed
          → on_gathered c 1 answer (gather c ms no_buffers) w ≡ stored_round answer ms w
      by_parsed [] e =
          let g = gather_none ms no_buffers e in
          ap (λ b. on_gathered c 1 answer b w) g
          ∙ nothing_gathered answer w
          ∙ sym (
              ap (λ b. round_of (store_batch c answer b w)) g
              ∙ ap round_of (store_nothing answer w))
      by_parsed (p ∷ ps) e =
          let h : Holds (p ∷ ps) (gather c ms no_buffers) =
            rw e at (gather-Holds c ms [] no_buffers no_buffers-Holds) in
          let full : leb 1 (length (gather c ms no_buffers).rows) ≡ true =
            rw h.rows (ground arith) in
          rw (store_batch-flush answer p ps (gather c ms no_buffers) w h, full, on_gathered) refl

  abbrev older_next : List Poll → Flushed → Outcome
  older_next ps (raised w) = crashed w
  older_next ps (flushed w) = older_worker c ps w

  abbrev next : List Poll → Outcome → Outcome
  next ps (running b w) = worker c 1 ps b w
  next ps (finished w) = finished w
  next ps (crashed w) = crashed w

  goes_on :
      (ps : List Poll) (r : Flushed)
      → ((w : World) → older_worker c ps w ≡ worker c 1 ps no_buffers w)
      → older_next ps r ≡ next ps (round_of r)
  goes_on ps (raised w) ih = refl
  goes_on ps (flushed w) ih = ih w

  older_round :
      (p : Poll) (ps : List Poll) (m : Message × Reading) (ms : List (Message × Reading))
      (w : World)
      → p.messages ≡ m ∷ ms
      → older_worker c (p ∷ ps) w
        ≡ older_next ps (store_batch c p.answer (gather c (m ∷ ms) no_buffers) w)
  unfolding older_worker
  older_round p ps m ms w e =
      rw (e, older_worker) (by_end (store_batch c p.answer (gather c (m ∷ ms) no_buffers) w))
    where
      by_end :
          (r : Flushed)
          → (elim r as (λ f. Outcome) [
            | raised w' ↦ crashed w'
            | flushed w' ↦ older_worker c ps w'
          ])
            ≡ older_next ps r
      by_end (raised w') = refl
      by_end (flushed w') = refl

  worker_round :
      (p : Poll) (ps : List Poll) (w : World)
      → worker c 1 (p ∷ ps) no_buffers w ≡ next ps (worker_step c 1 p no_buffers w)
  unfolding worker
  worker_round p ps w = by_end (worker_step c 1 p no_buffers w)
    where
      by_end :
          (o : Outcome)
          → (elim o as (λ f. Outcome) [
            | running b w' ↦ worker c 1 ps b w'
            | finished w' ↦ finished w'
            | crashed w' ↦ crashed w'
          ])
            ≡ next ps o
      by_end (running b w') = refl
      by_end (finished w') = refl
      by_end (crashed w') = refl

  empty_round :
      (p : Poll) (w : World) → p.messages ≡ [] → worker_step c 1 p no_buffers w ≡ finished w
  unfolding worker_step on_empty flush
  empty_round p w e = ground (arith, e)

  full_round :
      (p : Poll) (m : Message × Reading) (ms : List (Message × Reading)) (w : World)
      → p.messages ≡ m ∷ ms
      → worker_step c 1 p no_buffers w ≡ stored_round p.answer (m ∷ ms) w
  unfolding worker_step
  full_round p m ms w e = rw (e, worker_step) (gathered_round p.answer (m ∷ ms) w)

  -- Whatever the queue and the database answer, the older worker does what the newer one does with a
  -- COMMIT_SIZE of 1 and nothing buffered.
  pub older_worker-worker :
      (ps : List Poll) (w : World) → older_worker c ps w ≡ worker c 1 ps no_buffers w
  unfolding older_worker worker
  older_worker-worker [] w = refl
  older_worker-worker (p ∷ ps) w = by_messages p.messages refl (λ w'. older_worker-worker ps w')
    where
      by_messages :
          (ms : List (Message × Reading))
          → p.messages ≡ ms
          → ((w' : World) → older_worker c ps w' ≡ worker c 1 ps no_buffers w')
          → older_worker c (p ∷ ps) w ≡ worker c 1 (p ∷ ps) no_buffers w
      by_messages [] e ih =
          (rw (e, older_worker) refl) ∙ sym (worker_round p ps w ∙ ap (next ps) (empty_round p w e))
      by_messages (m ∷ ms) e ih =
          older_round p ps m ms w e
          ∙ goes_on ps (store_batch c p.answer (gather c (m ∷ ms) no_buffers) w) ih
          ∙ sym (worker_round p ps w ∙ ap (next ps) (full_round p m ms w e))
