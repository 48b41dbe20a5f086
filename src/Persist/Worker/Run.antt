-- ===== src/Persist/Worker/Run.antt =====
-- `_worker` from its first poll to its end.
use jim_tf.Base.{
  ℕ, ◌≡◌, ◌∙◌, ◌⊎◌, inl, inr, refl, sym, ap, List, [], ◌∷◌, ◌++◌, length, leb, Bool-cases,
  Conversions, append-nil, append_assoc, true,
}
use jim_tf.Sqs.{Message}
use jim_tf.Persist.Parse.{Reading, Parsed, RowData}
use jim_tf.Persist.Batch.Totals.{merge-none}
use jim_tf.Persist.Store.Rows.{or_else-none}
use jim_tf.Persist.Worker.{
  Buffers, no_buffers, World, Answer, Flushed, flushed, raised, flush, gather, Poll, Outcome,
  running, finished, crashed, on_empty, on_gathered, worker_step, worker,
}
use jim_tf.Persist.Worker.Tracks.{parsed_of, parsed_in, Holds, IsSettled, IsCut, gather-Holds}
use jim_tf.Persist.Worker.Flush.{Settles, flush-Settles}

-- Of the messages seen, the first ones are stored and deleted, and the others are in the buffers.
pub record Progress (start : World) (seen : List Parsed) (b : Buffers) (w : World) : Type 0 where
  pub committed : List Parsed
  pub pending : List Parsed
  pub split : committed ++ pending ≡ seen
  pub settled : IsSettled start committed w
  pub holds : Holds pending b

-- Of the messages seen, the first ones are stored, and of these the first ones are deleted.
pub record Loss (start : World) (seen : List Parsed) (w : World) : Type 0 where
  pub committed : List Parsed
  pub lost : List Parsed
  pub split : committed ++ lost ≡ seen
  pub cut : IsCut start committed w

pub no_buffers-Holds : Holds [] no_buffers
no_buffers-Holds = record { rows = refl; receipts = refl; distinct = tt; batches = λ s. refl }

module _ (c : Conversions) (commit_size : ℕ) (start : World) where
  -- What one round does to the messages seen before it, by how it ends.
  abbrev pub Steps : List Parsed → Outcome → Type 0
  Steps seen (running b w) = Progress start seen b w
  Steps seen (finished w) = IsSettled start seen w
  Steps seen (crashed w) = Loss start seen w

  loss :
      (committed pending : List Parsed) (w : World)
      → IsCut start committed w ⊎ IsCut start (committed ++ pending) w
      → Loss start (committed ++ pending) w
  loss committed pending w (inl t) = record {
    committed = committed;
    lost = pending;
    split = refl;
    cut = t;
  }
  loss committed pending w (inr t) = record {
    committed = committed ++ pending;
    lost = [];
    split = append-nil _;
    cut = t;
  }

  cleared :
      (seen : List Parsed) (w : World) → IsSettled start seen w → Progress start seen no_buffers w
  cleared seen w t = record {
    committed = seen;
    pending = [];
    split = append-nil seen;
    settled = t;
    holds = no_buffers-Holds;
  }

  on_gathered-Steps :
      (answer : Answer) (committed pending : List Parsed) (b : Buffers) (w : World)
      → IsSettled start committed w
      → Holds pending b
      → Steps (committed ++ pending) (on_gathered c commit_size answer b w)
  on_gathered-Steps answer committed pending b w t h =
      elim (Bool-cases (leb commit_size (length b.rows))) [
        | inl full ↦
            by_end full (flush c answer b w) refl
              (flush-Settles c start committed pending b w answer t h)
        | inr more ↦
            unfold on_gathered in
            rw (more, on_gathered)
              (record {
                committed = committed;
                pending = pending;
                split = refl;
                settled = t;
                holds = h;
              })
      ]
    where
      by_end :
          leb commit_size (length b.rows) ≡ true
          → (r : Flushed) → flush c answer b w ≡ r
          → Settles c start committed pending b w r
          → Steps (committed ++ pending) (on_gathered c commit_size answer b w)
      by_end full (flushed w') e s =
          unfold on_gathered in rw (full, e, on_gathered) (cleared _ w' s)
      by_end full (raised w') e s =
          unfold on_gathered in rw (full, e, on_gathered) (loss committed pending w' s)

  on_empty-Steps :
      (answer : Answer) (committed pending : List Parsed) (b : Buffers) (w : World)
      → IsSettled start committed w
      → Holds pending b
      → Steps (committed ++ pending) (on_empty c commit_size answer b w)
  on_empty-Steps answer committed pending b w t h =
      by_end b.rows refl (flush c answer b w) refl
        (flush-Settles c start committed pending b w answer t h)
    where
      by_end :
          (rows : List (ℕ × RowData))
          → b.rows ≡ rows
          → (r : Flushed) → flush c answer b w ≡ r
          → Settles c start committed pending b w r
          → Steps (committed ++ pending) (on_empty c commit_size answer b w)
      by_end [] q (flushed w') e s = unfold on_empty in rw (e, q, on_empty) s
      by_end (x ∷ xs) q (flushed w') e s = unfold on_empty in rw (e, q, on_empty) (cleared _ w' s)
      by_end rows q (raised w') e s =
          unfold on_empty in rw (e, on_empty) (loss committed pending w' s)

  pub worker_step-Steps :
      (p : Poll) (seen : List Parsed) (b : Buffers) (w : World)
      → Progress start seen b w
      → Steps (seen ++ parsed_of c p.messages) (worker_step c commit_size p b w)
  worker_step-Steps p seen b w t = by_messages p.messages refl
    where
      by_messages :
          (ms : List (Message × Reading))
          → p.messages ≡ ms
          → Steps (seen ++ parsed_of c p.messages) (worker_step c commit_size p b w)
      by_messages [] e =
          unfold worker_step in
          rw (e, worker_step, append-nil seen, ← t.split)
            (on_empty-Steps p.answer t.committed t.pending b w t.settled t.holds)
      by_messages (m ∷ ms) e =
          unfold worker_step in
          rw (e, worker_step, ← t.split, append_assoc t.committed t.pending (parsed_of c (m ∷ ms)))
            (on_gathered-Steps p.answer t.committed (t.pending ++ parsed_of c (m ∷ ms))
              (gather c (m ∷ ms) b) w t.settled (gather-Holds c (m ∷ ms) t.pending b t.holds))

  -- After the first of the polls the worker still polls, and the next one ends it.
  pub record IsLast (b : Buffers) (w : World) (front : List Poll) (p : Poll) (o : Outcome)
      : Type 0 where
    pub buffers : Buffers
    pub world : World
    pub polls : worker c commit_size front b w ≡ running buffers world
    pub ends : worker c commit_size (front ++ p ∷ []) b w ≡ o

  -- The state of affairs when `_worker` has run on some polls, by how it has ended.
  abbrev pub Ends : List Parsed → List Poll → Buffers → World → Outcome → Type 0
  Ends seen ps b w (running b' w') = Progress start (seen ++ parsed_in c ps) b' w'
  Ends seen ps b w (finished w') =
      (front : List Poll) × (p : Poll) × (rest : List Poll) × (ps ≡ front ++ p ∷ rest)
      × IsLast b w front p (finished w')
      × IsSettled start (seen ++ parsed_in c (front ++ p ∷ [])) w'
  Ends seen ps b w (crashed w') =
      (front : List Poll) × (p : Poll) × (rest : List Poll) × (ps ≡ front ++ p ∷ rest)
      × IsLast b w front p (crashed w')
      × Loss start (seen ++ parsed_in c (front ++ p ∷ [])) w'

  pub worker_goes_on :
      (p : Poll) (ps : List Poll) (b b' : Buffers) (w w' : World)
      → worker_step c commit_size p b w ≡ running b' w'
      → worker c commit_size (p ∷ ps) b w ≡ worker c commit_size ps b' w'
  unfolding worker
  worker_goes_on p ps b b' w w' e = rw (e, worker)

  pub worker_finishes :
      (p : Poll) (ps : List Poll) (b : Buffers) (w w' : World)
      → worker_step c commit_size p b w ≡ finished w'
      → worker c commit_size (p ∷ ps) b w ≡ finished w'
  unfolding worker
  worker_finishes p ps b w w' e = rw (e, worker)

  pub worker_crashes :
      (p : Poll) (ps : List Poll) (b : Buffers) (w w' : World)
      → worker_step c commit_size p b w ≡ crashed w'
      → worker c commit_size (p ∷ ps) b w ≡ crashed w'
  unfolding worker
  worker_crashes p ps b w w' e = rw (e, worker)

  pub Outcome-cases :
      (o : Outcome)
      → ((b : Buffers) × (w : World) × (o ≡ running b w))
        ⊎ ((w : World) × (o ≡ finished w))
        ⊎ ((w : World) × (o ≡ crashed w))
  Outcome-cases (running b w) = inl (b, w, refl)
  Outcome-cases (finished w) = inr (inl (w, refl))
  Outcome-cases (crashed w) = inr (inr (w, refl))

  regroup :
      (p : Poll) (ps : List Poll) (seen : List Parsed)
      → (seen ++ parsed_of c p.messages) ++ parsed_in c ps ≡ seen ++ parsed_in c (p ∷ ps)
  regroup p ps seen = append_assoc seen (parsed_of c p.messages) (parsed_in c ps)

  IsLast-cons :
      (p q : Poll) (front : List Poll) (b b' : Buffers) (w w' : World) (o : Outcome)
      → worker_step c commit_size p b w ≡ running b' w'
      → IsLast b' w' front q o
      → IsLast b w (p ∷ front) q o
  IsLast-cons p q front b b' w w' o e l = record {
    buffers = l.buffers;
    world = l.world;
    polls = worker_goes_on p front b b' w w' e ∙ l.polls;
    ends = worker_goes_on p (front ++ q ∷ []) b b' w w' e ∙ l.ends;
  }

  Ends-cons :
      (p : Poll) (ps : List Poll) (seen : List Parsed) (b b' : Buffers) (w w' : World) (o : Outcome)
      → worker_step c commit_size p b w ≡ running b' w'
      → Ends (seen ++ parsed_of c p.messages) ps b' w' o
      → Ends seen (p ∷ ps) b w o
  Ends-cons p ps seen b b' w w' (running _ _) s h = rw (← regroup p ps seen) h
  Ends-cons p ps seen b b' w w' (finished u) s (front, q, rest, e, l, t) = (
    p ∷ front,
    q,
    rest,
    ap (◌∷◌ p) e,
    IsLast-cons p q front b b' w w' (finished u) s l,
    (rw (← regroup p (front ++ q ∷ []) seen) t),
  )
  Ends-cons p ps seen b b' w w' (crashed u) s (front, q, rest, e, l, t) = (
    p ∷ front,
    q,
    rest,
    ap (◌∷◌ p) e,
    IsLast-cons p q front b b' w w' (crashed u) s l,
    (rw (← regroup p (front ++ q ∷ []) seen) t),
  )

  at_once :
      (p : Poll) (b : Buffers) (w : World) (o : Outcome)
      → worker c commit_size (p ∷ []) b w ≡ o
      → IsLast b w [] p o
  unfolding worker
  at_once p b w o e = record { buffers = b; world = w; polls = refl; ends = e }

  worker-Ends :
      (ps : List Poll) (seen : List Parsed) (b : Buffers) (w : World)
      → Progress start seen b w
      → Ends seen ps b w (worker c commit_size ps b w)
  worker-Ends [] seen b w t = unfold worker in rw (append-nil seen) t
  worker-Ends (p ∷ ps) seen b w t =
      let s : Steps (seen ++ parsed_of c p.messages) (worker_step c commit_size p b w) =
        worker_step-Steps p seen b w t in
      elim (Outcome-cases (worker_step c commit_size p b w)) [
        | inl (b', w', e) ↦
            let s' : Steps (seen ++ parsed_of c p.messages) (running b' w') = rw e at s in
            rw (worker_goes_on p ps b b' w w' e) (
              Ends-cons p ps seen b b' w w' _ e
                (worker-Ends ps (seen ++ parsed_of c p.messages) b' w' s'))
        | inr (inl (w', e)) ↦
            let s' : Steps (seen ++ parsed_of c p.messages) (finished w') = rw e at s in
            rw (worker_finishes p ps b w w' e) (
              [],
              p,
              ps,
              refl,
              at_once p b w (finished w') (worker_finishes p [] b w w' e),
              (rw (append-nil (parsed_of c p.messages)) s'),
            )
        | inr (inr (w', e)) ↦
            let s' : Steps (seen ++ parsed_of c p.messages) (crashed w') = rw e at s in
            rw (worker_crashes p ps b w w' e) (
              [],
              p,
              ps,
              refl,
              at_once p b w (crashed w') (worker_crashes p [] b w w' e),
              (rw (append-nil (parsed_of c p.messages)) s'),
            )
      ]

  -- Whatever the queue and the database answer, a worker that starts with nothing buffered keeps
  -- this account of the messages it has parsed, in order. When it has ended at an empty queue, all
  -- of them are in the tables (the totals and times of each scheme, and for each identifier the
  -- first row), added to what was there, and exactly their receipts are deleted. When it is still
  -- polling, this holds of a first part of them, and the buffers hold the rest. When a call has
  -- raised, a first part is in the tables, and only receipts of that part are deleted.
  pub worker_account :
      (ps : List Poll) → Ends [] ps no_buffers start (worker c commit_size ps no_buffers start)
  worker_account ps = worker-Ends ps [] no_buffers start (record {
    committed = [];
    pending = [];
    split = refl;
    settled = record {
      stores = record { totals = λ s. sym (merge-none _); factors = λ q. sym (or_else-none _) };
      deleted = sym (append-nil _);
    };
    holds = no_buffers-Holds;
  })
