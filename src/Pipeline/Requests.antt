-- ===== src/Pipeline/Requests.antt =====
-- From the numbers that infrastructure/code/test_msg.py draws to the rows that are stored.
use mathlib.Core.List.{Memᴰ}
use jim_tf.Base.{
  ℕ, ◌≡◌, ap, ◌∙◌, String, Bool, some, List, Conversions, IsExact, IsExactList, All, All-member,
  All-flat, flat, lookup, nat_key,
}
use jim_tf.Factor.{do_factor}
use jim_tf.Sqs.{Message, string_value}
use jim_tf.Process
use jim_tf.Process.{Delivery, int_attribute}
use jim_tf.Process.Answers.Built.{delivered_to}
use jim_tf.Sender.{TestEntry, Settings, Draws, test_entry, run}
use jim_tf.Sender.Drawn.{sender_of, IsDrawn, run-Drawn}
use jim_tf.Persist.Parse.{RowData}
use jim_tf.Persist.Worker.{World, Poll}
use jim_tf.Persist.Setup.{Server}
use jim_tf.Persist.Pool.{persist}
use jim_tf.Pipeline.Rows.{IsAnswer, AllSent, persist-Answers}

-- The message that the queue makes of an entry of the load generator.
abbrev pub requested : TestEntry → String → String → String → Message
requested e message_id receipt_handle sent_timestamp = record {
  message_id = message_id;
  receipt_handle = receipt_handle;
  sent_timestamp = sent_timestamp;
  attributes = e.message_attributes;
}

module _ (c : Conversions) (draws : Draws) where
  requested_numbers :
      (index pick : ℕ) (message_id receipt_handle sent_timestamp : String)
      → ((n : ℕ) → IsExact c n)
      → (int_attribute c "Factor"
            (requested (test_entry c draws index pick) message_id receipt_handle sent_timestamp)
          ≡ some (draws.factor index))
        × (int_attribute c "Scheme"
              (requested (test_entry c draws index pick) message_id receipt_handle sent_timestamp)
            ≡ some pick)
  unfolding int_attribute string_value test_entry
  requested_numbers index pick message_id receipt_handle sent_timestamp exact =
      ((exact (draws.factor index)).int_str, (exact pick).int_str)

  module _ (fuel : ℕ) (fails : List TestEntry → Bool) (settings : Settings) where
    -- A message of the factor queue: a run of the load generator has handed over its entry.
    pub record IsRequest (m : Message) : Type 0 where
      pub entry : TestEntry
      pub message_id : String
      pub receipt_handle : String
      pub sent_timestamp : String
      pub handed : Memᴰ entry (flat (sender_of (run c draws fuel fails settings)).sent)
      pub made : m ≡ requested entry message_id receipt_handle sent_timestamp

    request_numbers :
        (m : Message)
        → ((n : ℕ) → IsExact c n)
        → IsRequest m
        → (index pick : ℕ) × (int_attribute c "Factor" m ≡ some (draws.factor index))
          × (int_attribute c "Scheme" m ≡ some (draws.scheme pick))
    request_numbers m exact r =
        let d : IsDrawn c draws r.entry =
          All-member (IsDrawn c draws) (flat (sender_of (run c draws fuel fails settings)).sent)
            (All-flat (IsDrawn c draws) (sender_of (run c draws fuel fails settings)).sent
              (run-Drawn c draws fails fuel settings))
            r.handed in
        let numbers =
          requested_numbers d.index (draws.scheme d.pick) r.message_id r.receipt_handle
            r.sent_timestamp exact in
        let same : m
            ≡ requested (test_entry c draws d.index (draws.scheme d.pick)) r.message_id
                r.receipt_handle r.sent_timestamp =
          r.made ∙ ap (λ e. requested e r.message_id r.receipt_handle r.sent_timestamp) d.made in
        (
          d.index,
          d.pick,
          ap (int_attribute c "Factor") same ∙ numbers.0,
          ap (int_attribute c "Scheme") same ∙ numbers.1,
        )

    -- Whatever the queues and the database answer, and in whatever order the rounds of the persist
    -- workers happen: if the receiver threads are given only entries that the load generator has
    -- handed over, the persist workers only entries that the receiver threads have sent, and every
    -- row of the table before answers a message given to the threads, then for every row after these
    -- rounds its factor is one that the load generator has drawn, its scheme too, and its result is
    -- the list that `do_factor` gives for the factor. It is assumed that Python reads back each
    -- number and each list as it printed them.
    pub persist-Drawn :
        (int_sqrt : ℕ → ℕ) (threads : List (List Process.Poll))
        → ((n : ℕ) → IsExact c n)
        → ((l : List ℕ) → IsExactList c l)
        → All (λ d. IsRequest d.message) (delivered_to threads)
        → (commit_size : ℕ) (before : World) (name admin_db : String) (servers : List Server)
          (rounds : List (ℕ × Poll))
        → All (λ r. AllSent c int_sqrt threads r.1.messages) rounds
        → ((q : ℕ) (row : RowData)
            → lookup q before.database.factors ≡ some row
            → IsAnswer c int_sqrt threads row)
        → (q : ℕ) (row : RowData)
        → lookup q
            (persist c commit_size name admin_db servers rounds before).world.database.factors
          ≡ some row
        → (index pick : ℕ) × (row.factor ≡ draws.factor index)
          × (row.scheme ≡ draws.scheme pick)
          × (row.result ≡ do_factor int_sqrt (draws.factor index))
    persist-Drawn int_sqrt threads exact exact_list asked commit_size before name admin_db servers
          rounds sent old q row e =
        let a =
          persist-Answers c int_sqrt threads exact exact_list commit_size before name admin_db
            servers rounds sent old q row e in
        let (index, pick, f, s) =
          request_numbers a.request.message exact
            (All-member (λ d. IsRequest d.message) (delivered_to threads) asked a.given) in
        let factor : row.factor ≡ draws.factor index = cc (a.factor, f) in
        (index, pick, factor, (cc (a.scheme, s)), a.result ∙ ap (do_factor int_sqrt) factor)
