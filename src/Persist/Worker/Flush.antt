-- ===== src/Persist/Worker/Flush.antt =====
-- `_flush`: what is committed and deleted after it, on each way that it can end.
use jim_tf.Base.{
  ℕ, zero, suc, ◌≡◌, ◌⊎◌, inl, inr, refl, sym, ap, ◌∙◌, List, [], ◌∷◌, ◌++◌, map, length, lookup,
  nat_key, string_key, arith, Conversions, append-nil, append_assoc, map-append,
}
use mathlib.Core.Path.{ap₂}
use jim_tf.Sqs.{DeleteEntry}
use jim_tf.Persist.Parse.{Parsed, RowData}
use jim_tf.Persist.Batch.Totals.{merge, merge_assoc, tally, tally-append, lookup-upsert_all}
use jim_tf.Persist.Store.{Database, insert_rows, upsert_all}
use jim_tf.Persist.Store.Rows.{or_else, or_else_assoc, lookup-append, lookup-insert_rows}
use jim_tf.Persist.Worker.{
  Buffers, World, Answer, database_raises, commits, Flushed, flushed, raised, batches_of_ten,
  delete_all, flush,
}
use jim_tf.Persist.Worker.Tracks.{
  receipts_of, receipts_of-append, receipts-batches_of_ten, entry, Holds, Stores, IsSettled, IsCut,
}

module _ (c : Conversions) where
  delete_all_flushed :
      (k : ℕ) (calls : List (List DeleteEntry)) (w w' : World)
      → delete_all c k calls w ≡ flushed w'
      → (w'.database ≡ w.database) × (w'.delete_calls ≡ w.delete_calls ++ calls)
  unfolding delete_all
  delete_all_flushed k [] w w' h = ground (arith, append-nil w.delete_calls)
  delete_all_flushed zero (x ∷ xs) w w' h = absurd (cc)
  delete_all_flushed (suc k) (x ∷ xs) w w' h =
      let next : World = record w { delete_calls = w.delete_calls ++ x ∷ [] } in
      let r = delete_all_flushed k xs next w' h in
      (r.0, r.1 ∙ append_assoc w.delete_calls (x ∷ []) xs)

  delete_all_raised :
      (k : ℕ) (calls : List (List DeleteEntry)) (w w' : World)
      → delete_all c k calls w ≡ raised w'
      → (w'.database ≡ w.database)
        × ((undone : List (List DeleteEntry)) × (w'.delete_calls ++ undone
              ≡ w.delete_calls ++ calls))
  unfolding delete_all
  delete_all_raised k [] w w' h = absurd (cc)
  delete_all_raised zero (x ∷ xs) w w' h = (ground arith, (x ∷ xs, ground arith))
  delete_all_raised (suc k) (x ∷ xs) w w' h =
      let next : World = record w { delete_calls = w.delete_calls ++ x ∷ [] } in
      let r = delete_all_raised k xs next w' h in
      (r.0, (r.1.0, r.1.1 ∙ append_assoc w.delete_calls (x ∷ []) xs))

module _ (c : Conversions) (start : World) (committed pending : List Parsed) (b : Buffers)
    (w : World) where
  -- The world after the commit.
  abbrev pub commit : Database
  commit = record {
    factors = insert_rows b.rows w.database.factors;
    summary = upsert_all b.scheme_batches w.database.summary;
  }

  commit-Stores :
      (w' : World)
      → Stores start committed w
      → Holds pending b
      → w'.database ≡ commit
      → Stores start (committed ++ pending) w'
  commit-Stores w' t h e = record {
    totals = λ s.
        ap (λ (d : Database). lookup s d.summary) e
        ∙ lookup-upsert_all s b.scheme_batches w.database.summary h.distinct
        ∙ ap₂ merge (t.totals s) (h.batches s)
        ∙ merge_assoc (lookup s start.database.summary) (tally s committed) (tally s pending)
        ∙ ap (merge (lookup s start.database.summary)) (sym (tally-append s committed pending));
    factors = λ q.
        ap (λ (d : Database). lookup q d.factors) e
        ∙ lookup-insert_rows q b.rows w.database.factors
        ∙ ap₂ or_else (t.factors q) (ap (lookup q) h.rows)
        ∙ or_else_assoc (lookup q start.database.factors) (lookup q (map entry committed))
            (lookup q (map entry pending))
        ∙ ap (or_else (lookup q start.database.factors)) (
            sym (lookup-append q (map entry committed) (map entry pending))
            ∙ ap (lookup q) (sym (map-append entry committed pending)));
  }

  abbrev pub batches : List (List DeleteEntry)
  batches = batches_of_ten c (length b.receipts) b.receipts

  all_receipts :
      receipts_of w.delete_calls ≡ receipts_of start.delete_calls ++ map (λ p. p.receipt) committed
      → Holds pending b
      → receipts_of (w.delete_calls ++ batches)
        ≡ receipts_of start.delete_calls ++ map (λ p. p.receipt) (committed ++ pending)
  all_receipts e h =
      receipts_of-append w.delete_calls batches
      ∙ ap₂ ◌++◌ e
          (receipts-batches_of_ten c (length b.receipts) b.receipts (omega arith) ∙ h.receipts)
      ∙ append_assoc (receipts_of start.delete_calls) (map (λ p. p.receipt) committed)
          (map (λ p. p.receipt) pending)
      ∙ ap (◌++◌ (receipts_of start.delete_calls))
          (sym (map-append (λ p. p.receipt) committed pending))

  abbrev pub Settles : Flushed → Type 0
  Settles (flushed w') = IsSettled start (committed ++ pending) w'
  Settles (raised w') = IsCut start committed w' ⊎ IsCut start (committed ++ pending) w'

  settled-IsCut : IsSettled start committed w → IsCut start committed w
  settled-IsCut t = record {
    stores = t.stores;
    undeleted = [];
    deleted = append-nil (receipts_of w.delete_calls) ∙ t.deleted;
  }

  deletes-Settles :
      (k : ℕ)
      → IsSettled start committed w
      → Holds pending b
      → Settles (delete_all c k batches (record w { database = commit }))
  deletes-Settles k t h = by_end (delete_all c k batches (record w { database = commit })) refl
    where
      by_end :
          (r : Flushed) → delete_all c k batches (record w { database = commit }) ≡ r → Settles r
      by_end (flushed w') e =
          let r = delete_all_flushed c k batches (record w { database = commit }) w' e in
          record {
            stores = commit-Stores w' t.stores h r.0;
            deleted = ap receipts_of r.1 ∙ all_receipts t.deleted h;
          }
      by_end (raised w') e =
          let r = delete_all_raised c k batches (record w { database = commit }) w' e in
          inr (record {
            stores = commit-Stores w' t.stores h r.0;
            undeleted = receipts_of r.1.0;
            deleted =
                sym (receipts_of-append w'.delete_calls r.1.0)
                ∙ ap receipts_of r.1.1
                ∙ all_receipts t.deleted h;
          })

  -- With nothing parsed, `_flush` does nothing.
  pub flush_idle : (answer : Answer) → b.rows ≡ [] → flush c answer b w ≡ flushed w
  unfolding flush
  flush_idle answer e = rw (e, flush)

  none_pending : Holds pending b → b.rows ≡ [] → pending ≡ []
  none_pending h e = by_list pending (sym h.rows ∙ e)
    where
      by_list : (ps : List Parsed) → map entry ps ≡ [] → ps ≡ []
      by_list [] q = refl
      by_list (p ∷ ps) q = cc

  -- A flush that ends has stored the pending messages and deleted them. One that raises has stored
  -- all or none of them, and deleted none that it has not stored.
  pub flush-Settles :
      (answer : Answer)
      → IsSettled start committed w
      → Holds pending b
      → Settles (flush c answer b w)
  flush-Settles answer t h = by_rows b.rows refl answer
    where
      by_rows :
          (rows : List (ℕ × RowData))
          → b.rows ≡ rows
          → (answer : Answer) → Settles (flush c answer b w)
      by_rows [] e answer = rw (flush_idle answer e, none_pending h e, append-nil committed) t
      by_rows (x ∷ xs) e database_raises = unfold flush in rw (e, flush) (inl (settled-IsCut t))
      by_rows (x ∷ xs) e (commits k) = unfold flush in rw (e, flush) (deletes-Settles k t h)
