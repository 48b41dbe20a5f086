-- ===== src/Pipeline/Rows.antt =====
-- From the requests that the receiver threads are given to the rows that the persist workers store.
use mathlib.Core.List.Memᴰ
use mathlib.Core.List.{Memᴰ}
use mathlib.Core.Path.{subst}
use jim_tf.Base.{
  zero, suc, flat, All-of_members, ℕ, ◌≡◌, sym, ap, ◌∙◌, String, none, some, List, [], ◌∷◌, ◌++◌,
  map, lookup, nat_key, Conversions, IsExact, IsExactList, All, All-member, arith, Option-cases,
  Bool-cases, nat_eq, All-append, inl, inr,
}
use jim_tf.Factor.{do_factor}
use jim_tf.Sqs.{Message, SendEntry, DeleteEntry}
use jim_tf.Process
use jim_tf.Process.{
  Delivery, Receiver, Next, continue, stop, crash, start, int_attribute, result_attributes,
  build_entry, receiver_loop, run_threads, state_of, all_results,
}
use jim_tf.Process.Answers.{IsAnswered, receiver_loop-answers}
use jim_tf.Process.Answers.Built.{Answers, delivered, delivered_to}
use jim_tf.Persist.Parse.{Reading, Parsed, RowData, parse_message}
use jim_tf.Persist.Worker.{World, Poll}
use jim_tf.Persist.Worker.Tracks.{parsed_of, entry}
use jim_tf.Persist.Setup.{Server}
use jim_tf.Persist.Pool.{Thread, polling, ended, broken, submitted, persist}
use jim_tf.Persist.Pool.Rounds.{parsed_at}
use jim_tf.Persist.Pool.Account.{parsed_over, persist-Accounted}
use jim_tf.Pipeline.{queued, stored, parse_attributes}

module _ (c : Conversions) (int_sqrt : ℕ → ℕ) (threads : List (List Process.Poll)) where
  -- A message of the result queue: a receiver thread has sent its entry.
  pub record IsSent (m : Message) : Type 0 where
    pub sent : SendEntry
    pub message_id : String
    pub receipt_handle : String
    pub sent_timestamp : String
    pub taken : Memᴰ sent (all_results (run_threads c int_sqrt threads))
    pub made : m ≡ queued sent message_id receipt_handle sent_timestamp

  -- A row that answers a request: a message that the receiver threads were given asks for its factor
  -- and its scheme, and its result is what `do_factor` gives.
  pub record IsAnswer (row : RowData) : Type 0 where
    pub request : Delivery
    pub given : Memᴰ request (delivered_to threads)
    pub factor : int_attribute c "Factor" request.message ≡ some row.factor
    pub scheme : int_attribute c "Scheme" request.message ≡ some row.scheme
    pub result : row.result ≡ do_factor int_sqrt row.factor

  from_pairs :
      (all : List Delivery) (e : SendEntry) (pairs : List (SendEntry × DeleteEntry))
      → All (Answers c int_sqrt all) pairs
      → Memᴰ e (map (λ q. q.0) pairs)
      → (q : SendEntry × DeleteEntry) × (q.0 ≡ e) × Answers c int_sqrt all q
  from_pairs all e pairs h m =
      let (q, t, k) = Memᴰ.of_map (λ (q : SendEntry × DeleteEntry). q.0) pairs m in
      (q, k, All-member (Answers c int_sqrt all) pairs h t)

  entry-Answers :
      (all : List Delivery) (e : SendEntry) (n : Next)
      → IsAnswered c int_sqrt all n
      → Memᴰ e (state_of n).results
      → (q : SendEntry × DeleteEntry) × (q.0 ≡ e) × Answers c int_sqrt all q
  entry-Answers all e (continue s) h m = from_pairs all e h.pairs h.answers (rw h.results at m)
  entry-Answers all e (stop s) h m = from_pairs all e h.pairs h.answers (rw h.results at m)
  entry-Answers all e (crash s) h m =
      from_pairs all e (h.pairs ++ h.undeleted) h.answers (rw h.results at m)

  -- What is sent by one of some threads answers what they were given.
  results-Answers :
      (some_threads : List (List Process.Poll)) (e : SendEntry)
      → Memᴰ e (all_results (run_threads c int_sqrt some_threads))
      → (q : SendEntry × DeleteEntry) × (all : List Delivery) × (q.0 ≡ e)
        × ((d : Delivery) → Memᴰ d all → Memᴰ d (delivered_to some_threads))
        × Answers c int_sqrt all q
  unfolding run_threads
  results-Answers [] e m = absurd (Memᴰ.not-nil m)
  results-Answers (polls ∷ others) e m =
      let n = receiver_loop c int_sqrt polls start in
      elim (Memᴰ.append_cases (state_of n).results m) [
        | inl here ↦
            let (q, same, a) =
              entry-Answers (delivered polls) e n (receiver_loop-answers c int_sqrt polls) here in
            (q, delivered polls, same, (λ d t. Memᴰ.append_left (delivered_to others) t), a)
        | inr later ↦
            let (q, all, same, f, a) = results-Answers others e later in
            (q, all, same, (λ d t. Memᴰ.append_right (delivered polls) (f d t)), a)
      ]

  -- An entry that is built has the attributes of the numbers that the message gives.
  built_attributes :
      (index : ℕ) (m : Message) (l : List ℕ) (factor_time pulled_time : ℕ)
      (q : SendEntry × DeleteEntry)
      → build_entry c index m l factor_time pulled_time ≡ some q
      → (factor scheme sent_time : ℕ) × (int_attribute c "Factor" m ≡ some factor)
        × (int_attribute c "Scheme" m ≡ some scheme)
        × (q.0.attributes ≡ result_attributes c m l factor_time pulled_time factor scheme sent_time)
  unfolding build_entry
  built_attributes index m l factor_time pulled_time q h =
      elim (Option-cases (int_attribute c "Factor" m)) [
        | inl e ↦ absurd (ground (arith, e))
        | inr (factor, f) ↦ elim (Option-cases (int_attribute c "Scheme" m)) [
          | inl e ↦ absurd (ground (arith, e, f))
          | inr (scheme, s) ↦ elim (Option-cases (c.int m.sent_timestamp)) [
            | inl e ↦ absurd (ground (arith, e, f, s))
            | inr (sent_time, t) ↦ (factor, scheme, sent_time, f, s, ground (arith, f, s, t))
          ]
        ]
      ]

  untimed :
      (m : Message) (now : Reading) → c.int m.sent_timestamp ≡ none → parse_message c m now ≡ none
  unfolding parse_message
  untimed m now e = rw e

  abbrev pub AllSent : List (Message × Reading) → Type 0
  AllSent ms = All (λ m. IsSent m.0) ms

  module _ (exact : (n : ℕ) → IsExact c n) (exact_list : (l : List ℕ) → IsExactList c l) where
    -- A message of the result queue parses, if at all, to an answer.
    parsed-IsAnswer :
        (m : Message) (now : Reading) (p : Parsed)
        → IsSent m
        → parse_message c m now ≡ some p
        → IsAnswer p.row
    parsed-IsAnswer m now p s h =
        let (q, all, same, f, a) = results-Answers threads s.sent s.taken in
        let d = a.delivery in
        let l = do_factor int_sqrt a.factor in
        let (factor, scheme, sent_time, ef, es, ea) =
          built_attributes a.index d.message l d.factor_time_ms d.pulled_time_ms q a.built in
        let attributes : s.sent.attributes
            ≡ result_attributes c d.message l d.factor_time_ms d.pulled_time_ms factor scheme
                sent_time =
          ap (λ (e : SendEntry). e.attributes) (sym same) ∙ ea in
        elim (Option-cases (c.int s.sent_timestamp)) [
          | inl e ↦
              let none_at : parse_message c m now ≡ none =
                untimed m now (ap c.int (ap (λ (x : Message). x.sent_timestamp) s.made) ∙ e) in
              absurd (cc)
          | inr (process_time, e) ↦
              let row : parse_message c m now
                  ≡ some (
                      stored c d.message l factor scheme sent_time d.factor_time_ms d.pulled_time_ms
                        s.receipt_handle now) =
                rw s.made (
                  parse_attributes c d.message l factor scheme sent_time d.factor_time_ms
                    d.pulled_time_ms s.sent s.message_id s.receipt_handle s.sent_timestamp
                    process_time now attributes (exact factor) (exact scheme) (exact sent_time)
                    (exact d.factor_time_ms) (exact d.pulled_time_ms) (exact_list l) e) in
              let rows : p.row
                  ≡ (stored c d.message l factor scheme sent_time d.factor_time_ms d.pulled_time_ms
                      s.receipt_handle now).row =
                cc in
              let asked : factor ≡ a.factor = cc (a.asked) in
              record {
                request = d;
                given = f d a.delivered;
                factor = ef ∙ ap some (sym (ap (λ (r : RowData). r.factor) rows));
                scheme = es ∙ ap some (sym (ap (λ (r : RowData). r.scheme) rows));
                result =
                    ap (λ (r : RowData). r.result) rows
                    ∙ ap (do_factor int_sqrt)
                        (sym asked ∙ sym (ap (λ (r : RowData). r.factor) rows));
              }
        ]

    parsed_of-AreAnswers :
        (ms : List (Message × Reading)) → AllSent ms → All (λ p. IsAnswer p.row) (parsed_of c ms)
    parsed_of-AreAnswers [] h = tt
    parsed_of-AreAnswers ((m, now) ∷ ms) h = elim (Option-cases (parse_message c m now)) [
      | inl e ↦ rw (e, parsed_of) (parsed_of-AreAnswers ms h.1)
      | inr (p, e) ↦ rw (e, parsed_of) (parsed-IsAnswer m now p h.0 e, parsed_of-AreAnswers ms h.1)
    ]

    parsed_at-AreAnswers :
        (i : ℕ) (p : Poll) (ts : List Thread)
        → AllSent p.messages
        → All (λ m. IsAnswer m.row) (parsed_at c i p ts)
    parsed_at-AreAnswers i p [] h = tt
    parsed_at-AreAnswers zero p (polling b ∷ ts) h = parsed_of-AreAnswers p.messages h
    parsed_at-AreAnswers zero p (ended ∷ ts) h = tt
    parsed_at-AreAnswers zero p (broken ∷ ts) h = tt
    parsed_at-AreAnswers (suc i) p (t ∷ ts) h = parsed_at-AreAnswers i p ts h

    parsed_over-AreAnswers :
        (commit_size : ℕ) (rounds : List (ℕ × Poll)) (ts : List Thread) (w : World)
        → All (λ r. AllSent r.1.messages) rounds
        → All (λ m. IsAnswer m.row) (parsed_over c commit_size rounds ts w)
    parsed_over-AreAnswers commit_size [] ts w h = tt
    parsed_over-AreAnswers commit_size ((i, p) ∷ rounds) ts w h =
        All-append (λ r. IsAnswer r.row) (parsed_at c i p ts) _ (parsed_at-AreAnswers i p ts h.0)
          (parsed_over-AreAnswers commit_size rounds _ _ h.1)

    looked_up :
        (q : ℕ) (row : RowData) (ps : List Parsed)
        → All (λ p. IsAnswer p.row) ps
        → lookup q (map entry ps) ≡ some row
        → IsAnswer row
    looked_up q row [] h e = absurd (cc)
    looked_up q row (p ∷ ps) h e = elim (Bool-cases (nat_eq p.sequence q)) [
      | inl t ↦ subst IsAnswer (let k = rw t at e in cc) h.0
      | inr t ↦ looked_up q row ps h.1 (rw t at e)
    ]

    -- Whatever the queues and the database answer, and in whatever order the rounds of the persist
    -- workers happen, if every message that a worker is given is an entry that a receiver thread
    -- has sent, and every row of the table answers a request, then so does every row after these
    -- rounds: the row's factor and scheme are those that a message given to a receiver thread asks
    -- for, and its result is the list that `do_factor` gives for the factor. It is assumed that
    -- Python reads back each number and each list as it printed them.
    pub persist-Answers :
        (commit_size : ℕ) (before : World) (name admin_db : String) (servers : List Server)
        (rounds : List (ℕ × Poll))
        → All (λ r. AllSent r.1.messages) rounds
        → ((q : ℕ) (row : RowData) → lookup q before.database.factors ≡ some row → IsAnswer row)
        → (q : ℕ) (row : RowData)
        → lookup q
            (persist c commit_size name admin_db servers rounds before).world.database.factors
          ≡ some row
        → IsAnswer row
    persist-Answers commit_size before name admin_db servers rounds sent old q row e =
        let ts = submitted name admin_db servers in
        let seen = parsed_over c commit_size rounds ts before in
        let a = persist-Accounted c commit_size before name admin_db servers rounds in
        let new : All (λ m. IsAnswer m.row) a.committed = All-of_members _ a.committed (λ m t.
          All-member (λ x. IsAnswer x.row) seen
            (parsed_over-AreAnswers commit_size rounds ts before sent)
            (a.among m (Memᴰ.append_left (flat a.held) t))) in
        elim (Option-cases (lookup q before.database.factors)) [
          | inl none_there ↦ looked_up q row a.committed new (cc (a.stores.factors q))
          | inr (r, there) ↦ subst IsAnswer (cc (a.stores.factors q)) (old q r there)
        ]
