-- ===== src/Process/Drains.antt =====
-- A receiver thread whose calls go through: it answers and deletes all that it is given, and stops.
pub mod Polls
use mathlib.Core.List.{map-map}
use mathlib.Core.Path.{subst}
use jim_tf.Base.{
  if◌then◌else◌, ℕ, ◌+◌, ◌≤◌, ◌<◌, ◌≡◌, ◌≢◌, ◌⊎◌, ◌∙◌, sym, refl, ap, inl, inr, none, some, true,
  String, List, [], ◌∷◌, ◌++◌, map, map-append, length, length-append, length-map, All, All-append,
  append_assoc, append-nil, arith, Conversions, keep, not, contains, string_key, Bool-cases, leb,
}
use jim_tf.Sqs.{Message, SendEntry, DeleteEntry}
use jim_tf.Factor.{do_factor}
use jim_tf.Process.{
  Delivery, Poll, Receiver, Next, result_attributes, continue, stop, crash, start, int_attribute,
  build_entry, build_entries, factors_of, prepare, acknowledge, deliver, handle_messages, poll_step,
  receiver_loop,
}
use jim_tf.Process.Loop.{
  Next-cases, loop_goes_on, loop_ends, loop_crashes, trailing, receiver_loop_ends,
}
use jim_tf.Process.Answers.Built.{delivered}
use jim_tf.Process.Drains.Polls.{
  receipts_of, deleted_receipts, IsFine, Answered, poll_answers, poll_idles,
}

-- The count of empty polls in a row, `k` before these, stays below three before each of them.
abbrev pub Early : ℕ → List Poll → Type 0
Early k [] = Unit
Early k (p ∷ ps) = (k < 3) × Early (trailing k (p ∷ [])) ps

module _ (c : Conversions) (int_sqrt : ℕ → ℕ) where
  -- What the thread has done when it has taken some polls.
  abbrev pub HasDone : Receiver → List Poll → Receiver → Type 0
  HasDone s taken t =
      (trailing s.empty_polls taken ≡ t.empty_polls)
      × (t.processed ≡ s.processed + length (delivered taken))
      × (deleted_receipts t ≡ deleted_receipts s ++ receipts_of (delivered taken))
      × (length t.results ≡ length s.results + length (delivered taken))

  abbrev Drained : Receiver → List Poll → Next → Type 0
  Drained s ps (continue t) = HasDone s ps t
  Drained s ps (stop t) =
      (taken rest : List Poll) × (ps ≡ taken ++ rest)
      × (t.empty_polls ≡ 3)
      × Early s.empty_polls taken
      × HasDone s taken t
  Drained s ps (crash t) = ⊥

  HasDone-cons :
      (p : Poll) (ps : List Poll) (s t u : Receiver)
      → HasDone s (p ∷ []) t
      → HasDone t ps u
      → HasDone s (p ∷ ps) u
  HasDone-cons p ps s t u a b =
      let a1 = rw (append-nil p.messages) at a.1 in
      let a2 = rw (append-nil p.messages) at a.2 in
      let a3 = rw (append-nil p.messages) at a.3 in
      (
        (rw a.0 b.0),
        omega (arith, a1, b.1, length-append p.messages (delivered ps)),
        b.2
            ∙ ap (λ l. l ++ receipts_of (delivered ps)) a2
            ∙ append_assoc (deleted_receipts s) (receipts_of p.messages)
                (receipts_of (delivered ps))
            ∙ ap (λ l. deleted_receipts s ++ l)
                (sym (
                  map-append (λ (d : Delivery). d.message.receipt_handle) p.messages
                    (delivered ps))),
        omega (arith, a3, b.3, length-append p.messages (delivered ps)),
      )

  Drained-cons :
      (p : Poll) (ps : List Poll) (s t : Receiver) (n : Next)
      → s.empty_polls < 3
      → HasDone s (p ∷ []) t
      → Drained t ps n
      → Drained s (p ∷ ps) n
  Drained-cons p ps s t (continue u) few a b = HasDone-cons p ps s t u a b
  Drained-cons p ps s t (stop u) few a (taken, rest, e, three, early, b) =
      let early' = subst (λ k. Early k taken) (sym a.0) early in
      (p ∷ taken, rest, ap (◌∷◌ p) e, three, (few, early'), HasDone-cons p taken s t u a b)
  Drained-cons p ps s t (crash u) few a b = b

  idle-HasDone :
      (p : Poll) (s : Receiver)
      → p.messages ≡ []
      → HasDone s (p ∷ []) (record s { empty_polls = s.empty_polls + 1 })
  idle-HasDone p s e = rw e (refl, omega arith, sym (append-nil (deleted_receipts s)), omega arith)

  Answered-HasDone :
      (p : Poll) (d : Delivery) (ds : List Delivery) (s t : Receiver)
      → p.messages ≡ d ∷ ds
      → Answered c int_sqrt s p.messages t
      → HasDone s (p ∷ []) t
  Answered-HasDone p d ds s t e a = rw (append-nil p.messages) ((rw e (sym a.0)), a.1, a.2, a.3)

  Drained-loop :
      (ps : List Poll) (s : Receiver)
      → s.empty_polls < 3
      → All (IsFine c) ps
      → Drained s ps (receiver_loop c int_sqrt ps s)
  Drained-loop [] s few h =
      unfold receiver_loop in
      (refl, omega arith, sym (append-nil (deleted_receipts s)), omega arith)
  Drained-loop (p ∷ ps) s few h = by_messages p.messages refl (λ t. Drained-loop ps t)
    where
      idle : Receiver
      idle = record s { empty_polls = s.empty_polls + 1 }

      by_messages :
          (ms : List Delivery)
          → p.messages ≡ ms
          → ((t : Receiver)
              → t.empty_polls < 3
              → All (IsFine c) ps
              → Drained t ps (receiver_loop c int_sqrt ps t))
          → Drained s (p ∷ ps) (receiver_loop c int_sqrt (p ∷ ps) s)
      by_messages [] e ih = elim (Bool-cases (leb 3 (s.empty_polls + 1))) [
        | inl full ↦
            rw (loop_ends c int_sqrt p ps s idle (poll_idles c int_sqrt p s e ∙ (rw full)))
              (p ∷ [], ps, refl, (ground arith), (few, tt), idle-HasDone p s e)
        | inr more ↦
            rw (loop_goes_on c int_sqrt p ps s idle (poll_idles c int_sqrt p s e ∙ (rw more)))
              (Drained-cons p ps s idle _ few (idle-HasDone p s e) (ih idle (ground arith) h.1))
      ]
      by_messages (d ∷ ds) e ih =
          let (t, goes, a) = poll_answers c int_sqrt p d ds s e h.0 in
          rw (loop_goes_on c int_sqrt p ps s t goes)
            (Drained-cons p ps s t _ few (Answered-HasDone p d ds s t e a) (ih t (omega arith) h.1))

  -- If the messages of all polls can be read and the calls that they lead to go through, and the
  -- polls end with three empty ones, then the thread stops: it has taken the polls up to the first
  -- three empty ones in a row, with fewer than three in a row before each of them, it has deleted every message of these, in order, and has sent and
  -- counted as many results.
  pub receiver_loop-drains :
      (before : List Poll) (p q r : Poll)
      → All (IsFine c) before
      → p.messages ≡ []
      → q.messages ≡ []
      → r.messages ≡ []
      → (t : Receiver) × (taken rest : List Poll) × (receiver_loop c int_sqrt
            (before ++ p ∷ q ∷ r ∷ [])
            start
          ≡ stop t)
        × (before ++ p ∷ q ∷ r ∷ [] ≡ taken ++ rest)
        × (trailing 0 taken ≡ 3)
        × Early 0 taken
        × (t.processed ≡ length (delivered taken))
        × (deleted_receipts t ≡ receipts_of (delivered taken))
        × (length t.results ≡ length (delivered taken))
  receiver_loop-drains before p q r h hp hq hr =
      let polls = before ++ p ∷ q ∷ r ∷ [] in
      let fine : All (IsFine c) polls =
        All-append (IsFine c) before (p ∷ q ∷ r ∷ []) h
          (empty_IsFine p hp, (empty_IsFine q hq, (empty_IsFine r hr, tt))) in
      let d = Drained-loop polls start (omega arith) fine in
      elim (Next-cases (receiver_loop c int_sqrt polls start)) [
        | inl (t, e) ↦ absurd (receiver_loop_ends c int_sqrt before [] p q r start t hp hq hr e)
        | inr (inl (t, e)) ↦
            let (taken, rest, split, three, early, done) =
              (let k : Drained start polls (stop t) = rw e at d in k) in
            (
              t,
              taken,
              rest,
              e,
              split,
              done.0 ∙ three,
              early,
              omega (arith, done.1),
              done.2,
              omega (arith, done.3),
            )
        | inr (inr (t, e)) ↦ absurd (let k : Drained start polls (crash t) = rw e at d in k)
      ]
    where
      empty_IsFine : (x : Poll) → x.messages ≡ [] → IsFine c x
      empty_IsFine x e = ((rw e tt), inl e)
