-- ===== src/Process/Loop.antt =====
-- When the receiver loop stops, and what its counter says then.
use jim_tf.Base.{
  ◌⊎◌, ◌≢◌, ◌∙◌, sym, inl, inr, ap, ℕ, ◌+◌, ◌≤◌, ◌<◌, ◌≡◌, refl, List, [], ◌∷◌, ◌++◌, length, arith,
  Conversions,
}
use jim_tf.Process.{
  Poll, Receiver, Next, continue, stop, crash, deliver, handle_messages, poll_step, receiver_loop,
}

pub Next-cases :
    (n : Next)
    → ((s : Receiver) × (n ≡ continue s))
      ⊎ ((s : Receiver) × (n ≡ stop s))
      ⊎ ((s : Receiver) × (n ≡ crash s))
Next-cases (continue s) = inl (s, refl)
Next-cases (stop s) = inr (inl (s, refl))
Next-cases (crash s) = inr (inr (s, refl))

abbrev received : List Poll → ℕ
received [] = 0
received (p ∷ ps) = length p.messages + received ps

module _ (c : Conversions) (int_sqrt : ℕ → ℕ) where
  deliver_continues :
      (p : Poll) (s s' : Receiver)
      → handle_messages c int_sqrt p s ≡ continue s'
      → (s'.empty_polls ≡ 0) × (s'.processed ≡ s.processed + length p.messages)
  unfolding handle_messages deliver
  deliver_continues p s s' h = ground arith

  never_stops : (p : Poll) (s s' : Receiver) → ¬ (handle_messages c int_sqrt p s ≡ stop s')
  unfolding handle_messages deliver
  never_stops p s s' h = ground arith

abbrev pub trailing : ℕ → List Poll → ℕ
trailing k [] = k
trailing k (p ∷ ps) = trailing (elim p.messages [ [] ↦ k + 1 | _ ∷ _ ↦ 0 ]) ps

module _ (c : Conversions) (int_sqrt : ℕ → ℕ) where
  step_continues :
      (p : Poll) (s s' : Receiver)
      → poll_step c int_sqrt p s ≡ continue s'
      → (s'.empty_polls ≡ elim p.messages [ [] ↦ s.empty_polls + 1 | _ ∷ _ ↦ 0 ])
        × (s'.processed ≡ s.processed + length p.messages)
  unfolding poll_step
  step_continues p s s' h = ground (arith, deliver_continues c int_sqrt p s s')

  step_stops :
      (p : Poll) (s s' : Receiver)
      → poll_step c int_sqrt p s ≡ stop s'
      → (p.messages ≡ []) × (2 ≤ s.empty_polls) × (s'.processed ≡ s.processed)
  unfolding poll_step
  step_stops p s s' h = ground (arith, never_stops c int_sqrt p s s')

  step_bound :
      (p : Poll) (s s' : Receiver)
      → s.empty_polls < 3
      → poll_step c int_sqrt p s ≡ continue s'
      → s'.empty_polls < 3
  unfolding poll_step
  step_bound p s s' b h = ground (arith, deliver_continues c int_sqrt p s s')

  -- The part of the polls that a stopped loop has taken.
  abbrev pub TakenBy : List Poll → Receiver → Receiver → Type 0
  TakenBy ps s s' =
      (taken rest : List Poll) × (ps ≡ taken ++ rest)
      × (s'.processed ≡ s.processed + received taken)
      × (trailing s.empty_polls taken ≡ 3)

  pub loop_goes_on :
      (p : Poll) (ps : List Poll) (s t : Receiver)
      → poll_step c int_sqrt p s ≡ continue t
      → receiver_loop c int_sqrt (p ∷ ps) s ≡ receiver_loop c int_sqrt ps t
  unfolding receiver_loop
  loop_goes_on p ps s t e = rw (e, receiver_loop)

  pub loop_ends :
      (p : Poll) (ps : List Poll) (s t : Receiver)
      → poll_step c int_sqrt p s ≡ stop t
      → receiver_loop c int_sqrt (p ∷ ps) s ≡ stop t
  unfolding receiver_loop
  loop_ends p ps s t e = rw (e, receiver_loop)

  pub loop_crashes :
      (p : Poll) (ps : List Poll) (s t : Receiver)
      → poll_step c int_sqrt p s ≡ crash t
      → receiver_loop c int_sqrt (p ∷ ps) s ≡ crash t
  unfolding receiver_loop
  loop_crashes p ps s t e = rw (e, receiver_loop)

  counted :
      (p : Poll) (s s' : Receiver)
      → p.messages ≡ []
      → s'.processed ≡ s.processed
      → s'.processed ≡ s.processed + received (p ∷ [])
  counted p s s' e h = ground arith

  full :
      (p : Poll) (s : Receiver)
      → p.messages ≡ []
      → 2 ≤ s.empty_polls
      → s.empty_polls < 3
      → trailing s.empty_polls (p ∷ []) ≡ 3
  full p s e a b = ground arith

  -- A loop that starts with fewer than three empty polls and stops has taken an initial part of the
  -- polls: its counter has grown by the messages of these, and they end with empty polls that make
  -- three in a row with those counted before.
  stops_after :
      (ps : List Poll) (s s' : Receiver)
      → s.empty_polls < 3
      → receiver_loop c int_sqrt ps s ≡ stop s'
      → TakenBy ps s s'
  stops_after [] s s' b h = absurd (unfold receiver_loop in cc)
  stops_after (p ∷ ps) s s' b h = elim (Next-cases (poll_step c int_sqrt p s)) [
    | inl (t, e) ↦
        let h' : receiver_loop c int_sqrt ps t ≡ stop s' = sym (loop_goes_on p ps s t e) ∙ h in
        let (taken, rest, q, n, k) = stops_after ps t s' (step_bound p s t b e) h' in
        let u = step_continues p s t e in
        (p ∷ taken, rest, ap (◌∷◌ p) q, omega (arith, n, u.1), (rw (← u.0) k))
    | inr (inl (t, e)) ↦
        let u = step_stops p s t e in
        let same : t ≡ s' = cc (loop_ends p ps s t e) in
        (p ∷ [], ps, refl, counted p s s' u.0 (rw (← same) u.2), full p s u.0 u.1 b)
    | inr (inr (t, e)) ↦ absurd (cc (loop_crashes p ps s t e))
  ]

  -- Three empty polls in a row end the loop, whatever came before and comes after.
  pub receiver_loop_ends :
      (before after : List Poll) (p q r : Poll) (s s' : Receiver)
      → p.messages ≡ []
      → q.messages ≡ []
      → r.messages ≡ []
      → receiver_loop c int_sqrt (before ++ p ∷ q ∷ r ∷ after) s ≢ continue s'
  receiver_loop_ends [] after p q r s s' hp hq hr h = unfold receiver_loop poll_step in ground arith
  receiver_loop_ends (x ∷ before) after p q r s s' hp hq hr h =
      elim (Next-cases (poll_step c int_sqrt x s)) [
        | inl (t, e) ↦
            receiver_loop_ends before after p q r t s' hp hq hr
              (sym (loop_goes_on x (before ++ p ∷ q ∷ r ∷ after) s t e) ∙ h)
        | inr (inl (t, e)) ↦ cc (loop_ends x (before ++ p ∷ q ∷ r ∷ after) s t e)
        | inr (inr (t, e)) ↦ cc (loop_crashes x (before ++ p ∷ q ∷ r ∷ after) s t e)
      ]
