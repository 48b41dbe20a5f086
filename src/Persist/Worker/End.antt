-- ===== src/Persist/Worker/End.antt =====
-- When a worker ends.
use jim_tf.Base.{ℕ, ◌≡◌, ◌≢◌, inl, inr, sym, ◌∙◌, List, [], ◌∷◌, ◌++◌, Conversions, arith}
use jim_tf.Persist.Worker.{
  Buffers, no_buffers, World, flush, Poll, running, finished, on_empty, worker_step, worker,
}
use jim_tf.Persist.Worker.Run.{worker_goes_on, worker_finishes, worker_crashes, Outcome-cases}

module _ (c : Conversions) (commit_size : ℕ) (start : World) where
  -- After an empty poll that does not end the worker, nothing is buffered.
  empty_step :
      (p : Poll) (b b' : Buffers) (w w' : World)
      → p.messages ≡ []
      → worker_step c commit_size p b w ≡ running b' w'
      → b' ≡ no_buffers
  unfolding worker_step on_empty
  empty_step p b b' w w' e h = ground arith

  -- With nothing buffered, an empty poll ends the worker.
  idle_step :
      (p : Poll) (w : World)
      → p.messages ≡ []
      → worker_step c commit_size p no_buffers w ≡ finished w
  unfolding worker_step on_empty flush
  idle_step p w e = ground arith

  -- Two empty polls in a row end the worker, whatever came before and comes after.
  pub worker_ends :
      (before after : List Poll) (p q : Poll) (b b' : Buffers) (w w' : World)
      → p.messages ≡ []
      → q.messages ≡ []
      → worker c commit_size (before ++ p ∷ q ∷ after) b w ≢ running b' w'
  worker_ends [] after p q b b' w w' hp hq h =
      elim (Outcome-cases c commit_size start (worker_step c commit_size p b w)) [
        | inl (x, y, e) ↦
            let cleared : x ≡ no_buffers = empty_step p b x w y hp e in
            let e' : worker_step c commit_size p b w ≡ running no_buffers y = rw cleared at e in
            cc (
              worker_goes_on c commit_size start p (q ∷ after) b no_buffers w y e',
              worker_finishes c commit_size start q after no_buffers y y (idle_step q y hq),
            )
        | inr (inl (y, e)) ↦ cc (worker_finishes c commit_size start p (q ∷ after) b w y e)
        | inr (inr (y, e)) ↦ cc (worker_crashes c commit_size start p (q ∷ after) b w y e)
      ]
  worker_ends (r ∷ before) after p q b b' w w' hp hq h =
      elim (Outcome-cases c commit_size start (worker_step c commit_size r b w)) [
        | inl (x, y, e) ↦
            worker_ends before after p q x b' y w' hp hq
              (sym (worker_goes_on c commit_size start r (before ++ p ∷ q ∷ after) b x w y e) ∙ h)
        | inr (inl (y, e)) ↦
            cc (worker_finishes c commit_size start r (before ++ p ∷ q ∷ after) b w y e)
        | inr (inr (y, e)) ↦
            cc (worker_crashes c commit_size start r (before ++ p ∷ q ∷ after) b w y e)
      ]
