-- ===== src/Process/Answers.antt =====
-- What the receiver deletes from its queue, and what it has put on the result queue by then.
pub mod Built
use jim_tf.Base.{
  Bool-cases, leb, ℕ, ◌+◌, ◌≡◌, refl, ap, sym, ◌∙◌, inl, inr, List, [], ◌∷◌, ◌++◌, map, arith,
  Conversions, some, not, All, All-append, All-keep, All-map, keep, keep-map, keep-congr, contains,
  string_key, Option-cases, >>=-eq-some, String, append-nil, map-append,
}
use jim_tf.Factor.{do_factor}
use jim_tf.Sqs.{Message, SendEntry, DeleteEntry}
use jim_tf.Process.{
  Delivery, Poll, Receiver, Next, continue, stop, crash, start, int_attribute, build_entry,
  build_entries, factors_of, prepare, acknowledge, deliver, handle_messages, poll_step,
  receiver_loop,
}
use jim_tf.Process.Loop.{Next-cases, loop_goes_on, loop_ends, loop_crashes}
use jim_tf.Process.Answers.Built.{Answers, AreIn, delivered, polls_in, prepare-Answers, same_id}

module _ (c : Conversions) (int_sqrt : ℕ → ℕ) (all : List Delivery) where
  -- Results and deletions are the two halves of one list of answers.
  pub record IsPaired (s : Receiver) : Type 0 where
    pub pairs : List (SendEntry × DeleteEntry)
    pub results : s.results ≡ map (λ q. q.0) pairs
    pub deleted : s.deleted ≡ map (λ q. q.1) pairs
    pub answers : All (Answers c int_sqrt all) pairs

  -- After a crash there may be results whose deletion did not come through, and no others.
  pub record IsAhead (s : Receiver) : Type 0 where
    pub pairs : List (SendEntry × DeleteEntry)
    pub undeleted : List (SendEntry × DeleteEntry)
    pub results : s.results ≡ map (λ q. q.0) (pairs ++ undeleted)
    pub deleted : s.deleted ≡ map (λ q. q.1) pairs
    pub answers : All (Answers c int_sqrt all) (pairs ++ undeleted)

  abbrev pub IsAnswered : Next → Type 0
  IsAnswered (continue s) = IsPaired s
  IsAnswered (stop s) = IsPaired s
  IsAnswered (crash s) = IsAhead s

  paired-IsAhead : (s : Receiver) → IsPaired s → IsAhead s
  paired-IsAhead s h = record {
    pairs = h.pairs;
    undeleted = [];
    results = rw append-nil h.results;
    deleted = h.deleted;
    answers = rw append-nil h.answers;
  }

  extend :
      (s : Receiver) (h : IsPaired s) (new : List (SendEntry × DeleteEntry))
      → s.results ++ map (λ q. q.0) new ≡ map (λ q. q.0) (h.pairs ++ new)
  extend s h new = rw (h.results, map-append)

  extend_deleted :
      (s : Receiver) (h : IsPaired s) (new : List (SendEntry × DeleteEntry))
      → s.deleted ++ map (λ q. q.1) new ≡ map (λ q. q.1) (h.pairs ++ new)
  extend_deleted s h new = rw (h.deleted, map-append)

  -- The pairs whose send the service did not refuse.
  abbrev taken : List String → List (SendEntry × DeleteEntry) → List (SendEntry × DeleteEntry)
  taken failed_ids = keep (λ q. not (contains failed_ids q.0.id))

  taken_results :
      (failed_ids : List String) (pairs : List (SendEntry × DeleteEntry))
      → keep
          (λ e. not (contains failed_ids e.id))
          (map (λ (q : SendEntry × DeleteEntry). q.0) pairs)
        ≡ map (λ q. q.0) (taken failed_ids pairs)
  taken_results failed_ids pairs =
      keep-map (λ (e : SendEntry). not (contains failed_ids e.id)) (λ q. q.0) pairs

  taken_deletes :
      (failed_ids : List String) (pairs : List (SendEntry × DeleteEntry))
      → All (Answers c int_sqrt all) pairs
      → keep
          (λ e. not (contains failed_ids e.id))
          (map (λ (q : SendEntry × DeleteEntry). q.1) pairs)
        ≡ map (λ q. q.1) (taken failed_ids pairs)
  taken_deletes failed_ids pairs h =
      keep-map (λ (e : DeleteEntry). not (contains failed_ids e.id)) (λ q. q.1) pairs
      ∙ ap (map (λ q. q.1)) (
          keep-congr _ _ pairs (
            All-map (Answers c int_sqrt all) _
              (λ q a. ap (λ t. not (contains failed_ids t)) (sym (same_id c int_sqrt all q a)))
              pairs h))

  acknowledge-IsAnswered :
      (p : Poll) (s : Receiver) (h : IsPaired s) (new : List (SendEntry × DeleteEntry))
      → All (Answers c int_sqrt all) new
      → IsAnswered (
          acknowledge c int_sqrt p
            (map (λ q. q.1) new)
            (record s { empty_polls = 0; results = s.results ++ map (λ q. q.0) new }))
  unfolding acknowledge
  acknowledge-IsAnswered p s h [] a = record {
    pairs = h.pairs;
    results = append-nil s.results ∙ h.results;
    deleted = h.deleted;
    answers = h.answers;
  }
  acknowledge-IsAnswered p s h (q ∷ qs) a = elim (Bool-cases p.delete_returns) [
    | inl e ↦ rw e (record {
      pairs = h.pairs ++ q ∷ qs;
      results = extend s h (q ∷ qs);
      deleted = extend_deleted s h (q ∷ qs);
      answers = All-append (Answers c int_sqrt all) h.pairs (q ∷ qs) h.answers a;
    })
    | inr e ↦ rw e (record {
      pairs = h.pairs;
      undeleted = q ∷ qs;
      results = extend s h (q ∷ qs);
      deleted = h.deleted;
      answers = All-append (Answers c int_sqrt all) h.pairs (q ∷ qs) h.answers a;
    })
  ]

  deliver-IsAnswered :
      (p : Poll) (pairs : List (SendEntry × DeleteEntry)) (failed_ids : List String) (s : Receiver)
      → All (Answers c int_sqrt all) pairs
      → IsPaired s
      → IsAnswered (deliver c int_sqrt p pairs failed_ids s)
  deliver-IsAnswered p pairs failed_ids s a h =
      unfold deliver in
      rw (taken_results failed_ids pairs, taken_deletes failed_ids pairs a)
        (acknowledge-IsAnswered p s h (taken failed_ids pairs)
          (All-keep (Answers c int_sqrt all) (λ q. not (contains failed_ids q.0.id)) pairs a))

  reset-IsAhead : (s : Receiver) → IsPaired s → IsAhead (record s { empty_polls = 0 })
  reset-IsAhead s h = record {
    pairs = h.pairs;
    undeleted = [];
    results = rw append-nil h.results;
    deleted = h.deleted;
    answers = rw append-nil h.answers;
  }

  handle_messages-IsAnswered :
      (p : Poll) (s : Receiver)
      → AreIn all p.messages
      → IsPaired s
      → IsAnswered (handle_messages c int_sqrt p s)
  unfolding handle_messages
  handle_messages-IsAnswered p s i h = elim (Option-cases (prepare c int_sqrt p.messages)) [
    | inl e ↦ rw (e, handle_messages) (reset-IsAhead s h)
    | inr (pairs, e) ↦ elim (Option-cases p.send_failed) [
      | inl f ↦ rw (e, f, handle_messages) (reset-IsAhead s h)
      | inr (failed_ids, f) ↦
          rw (e, f, handle_messages)
            (deliver-IsAnswered p pairs failed_ids s
              (prepare-Answers c int_sqrt all p.messages pairs i e) h)
    ]
  ]

  poll_step-IsAnswered :
      (p : Poll) (s : Receiver)
      → AreIn all p.messages
      → IsPaired s
      → IsAnswered (poll_step c int_sqrt p s)
  poll_step-IsAnswered p s i h = by_messages p.messages refl
    where
      kept : IsPaired (record s { empty_polls = s.empty_polls + 1 })
      kept = record {
        pairs = h.pairs;
        results = h.results;
        deleted = h.deleted;
        answers = h.answers;
      }

      by_messages : (ms : List Delivery) → p.messages ≡ ms → IsAnswered (poll_step c int_sqrt p s)
      by_messages [] e = elim (Bool-cases (leb 3 (s.empty_polls + 1))) [
        | inl t ↦ unfold poll_step in rw (e, t, poll_step) kept
        | inr t ↦ unfold poll_step in rw (e, t, poll_step) kept
      ]
      by_messages (d ∷ ds) e =
          unfold poll_step in rw (e, poll_step) (handle_messages-IsAnswered p s i h)

  receiver_loop-IsAnswered :
      (ps : List Poll) (s : Receiver)
      → All (λ p. AreIn all p.messages) ps
      → IsPaired s
      → IsAnswered (receiver_loop c int_sqrt ps s)
  receiver_loop-IsAnswered [] s i h = unfold receiver_loop in h
  receiver_loop-IsAnswered (p ∷ ps) s i h =
      let a : IsAnswered (poll_step c int_sqrt p s) = poll_step-IsAnswered p s i.0 h in
      elim (Next-cases (poll_step c int_sqrt p s)) [
        | inl (t, e) ↦
            let a' : IsAnswered (continue t) = rw e at a in
            rw (loop_goes_on c int_sqrt p ps s t e) (receiver_loop-IsAnswered ps t i.1 a')
        | inr (inl (t, e)) ↦
            let a' : IsAnswered (stop t) = rw e at a in rw (loop_ends c int_sqrt p ps s t e) a'
        | inr (inr (t, e)) ↦
            let a' : IsAnswered (crash t) = rw e at a in rw (loop_crashes c int_sqrt p ps s t e) a'
      ]

module _ (c : Conversions) (int_sqrt : ℕ → ℕ) where
  -- Whatever the queue answers, the thread deletes only messages whose result it has put on the
  -- result queue. The results and the deletions are the two halves of one list of answers, each
  -- built by `_build_entry` for one message of the polls with the list that `do_factor` gives for
  -- the number it asks for. Only after a crash there may be further results whose message is not
  -- deleted.
  pub receiver_loop-answers :
      (ps : List Poll) → IsAnswered c int_sqrt (delivered ps) (receiver_loop c int_sqrt ps start)
  receiver_loop-answers ps =
      receiver_loop-IsAnswered c int_sqrt (delivered ps) ps start
        (polls_in (delivered ps) ps (λ d m. m))
        (record { pairs = []; results = refl; deleted = refl; answers = tt })
