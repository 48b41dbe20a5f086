-- ===== src/Process/Drains/Polls.antt =====
-- One poll of a receiver thread whose calls go through.
use mathlib.Core.List.{map-map}
use jim_tf.Base.{
  if◌then◌else◌, ℕ, ◌+◌, ◌≡◌, ◌⊎◌, ◌∙◌, refl, ap, inl, inr, some, true, String, List, [], ◌∷◌, ◌++◌,
  map, map-append, length, length-append, length-map, All, append-nil, arith, Conversions, keep,
  not, contains, string_key, leb,
}
use jim_tf.Sqs.{SendEntry, DeleteEntry}
use jim_tf.Factor.{do_factor}
use jim_tf.Process.{
  Delivery, Poll, Receiver, result_attributes, continue, stop, int_attribute, build_entry,
  build_entries, factors_of, prepare, acknowledge, deliver, handle_messages, poll_step,
}

-- The receipt handles of the messages.
abbrev pub receipts_of : List Delivery → List String
receipts_of ds = map (λ d. d.message.receipt_handle) ds

abbrev pub deleted_receipts : Receiver → List String
deleted_receipts s = map (λ e. e.receipt_handle) s.deleted

module _ (c : Conversions) where
  -- The factor, the scheme and the time of a message are numbers.
  pub record IsReadable (d : Delivery) : Type 0 where
    pub factor : ℕ
    pub scheme : ℕ
    pub sent_time : ℕ
    pub factor_at : int_attribute c "Factor" d.message ≡ some factor
    pub scheme_at : int_attribute c "Scheme" d.message ≡ some scheme
    pub sent_at : c.int d.message.sent_timestamp ≡ some sent_time

  -- The calls that a poll leads to go through, and its messages can be read.
  abbrev pub IsFine : Poll → Type 0
  IsFine p =
      All IsReadable p.messages
      × (p.messages ≡ [] ⊎ ((p.send_failed ≡ some []) × (p.delete_returns ≡ true)))

module _ (c : Conversions) (int_sqrt : ℕ → ℕ) where
  -- The entries of messages that can be read: one pair for each.
  abbrev Built : ℕ → List Delivery → List ℕ → Type 0
  Built index ds fs =
      (pairs : List (SendEntry × DeleteEntry)) × (build_entries c int_sqrt index ds fs ≡ some pairs)
      × (map (λ q. q.1.receipt_handle) pairs ≡ receipts_of ds)

  one_entry :
      (index : ℕ) (d : Delivery) (l : List ℕ)
      → IsReadable c d
      → (q : SendEntry × DeleteEntry) × (build_entry c index d.message l d.factor_time_ms
            d.pulled_time_ms
          ≡ some q)
        × (q.1.receipt_handle ≡ d.message.receipt_handle)
  unfolding build_entry
  one_entry index d l r =
      let e : SendEntry = record {
        id = c.str index;
        delay_seconds = 0;
        attributes =
            result_attributes c d.message l d.factor_time_ms d.pulled_time_ms r.factor r.scheme
              r.sent_time;
        body = "Factor";
      } in
      (
        (e, record { id = c.str index; receipt_handle = d.message.receipt_handle }),
        (rw (r.factor_at, r.scheme_at, r.sent_at)),
        refl,
      )

  readable-Built :
      (index : ℕ) (ds : List Delivery)
      → All (IsReadable c) ds
      → (fs : List ℕ) × (factors_of c int_sqrt ds ≡ some fs) × Built index ds fs
  unfolding factors_of build_entries
  readable-Built index [] h = ([], refl, ([], refl, refl))
  readable-Built index (d ∷ ds) h =
      let (fs, e, (pairs, b, k)) = readable-Built (index + 1) ds h.1 in
      let (q, t, r) = one_entry index d (do_factor int_sqrt h.0.factor) h.0 in
      (h.0.factor ∷ fs, (rw (h.0.factor_at, e)), (q ∷ pairs, (rw (t, b)), (cc)))

  -- What a poll with messages does when its calls go through.
  abbrev pub Answered : Receiver → List Delivery → Receiver → Type 0
  Answered s ds t =
      (t.empty_polls ≡ 0)
      × (t.processed ≡ s.processed + length ds)
      × (deleted_receipts t ≡ deleted_receipts s ++ receipts_of ds)
      × (length t.results ≡ length s.results + length ds)

  none_refused :
      {A : Type 0} (id : A → String) (xs : List A) → keep (λ x. not (contains [] (id x))) xs ≡ xs
  none_refused id [] = refl
  none_refused id (x ∷ xs) = ap (◌∷◌ x) (none_refused id xs)

  acknowledged :
      (p : Poll) (es : List DeleteEntry) (s : Receiver)
      → p.delete_returns ≡ true
      → acknowledge c int_sqrt p es s
        ≡ continue
            (record s { processed = s.processed + length p.messages; deleted = s.deleted ++ es })
  unfolding acknowledge
  acknowledged p [] s g = rw (append-nil s.deleted)
  acknowledged p (e ∷ es) s g = rw g

  -- The state after a poll of which every pair is sent and deleted.
  after_poll : Poll → List (SendEntry × DeleteEntry) → Receiver → Receiver
  after_poll p pairs s = record {
    empty_polls = 0;
    processed = s.processed + length p.messages;
    results = s.results ++ map (λ q. q.0) pairs;
    deleted = s.deleted ++ map (λ q. q.1) pairs;
  }

  delivers :
      (p : Poll) (pairs : List (SendEntry × DeleteEntry)) (s : Receiver)
      → prepare c int_sqrt p.messages ≡ some pairs
      → p.send_failed ≡ some []
      → p.delete_returns ≡ true
      → handle_messages c int_sqrt p s ≡ continue (after_poll p pairs s)
  unfolding handle_messages deliver after_poll
  delivers p pairs s e f g =
      rw
        (
          e,
          f,
          none_refused (λ (x : DeleteEntry). x.id) (map (λ q. q.1) pairs),
          none_refused (λ (x : SendEntry). x.id) (map (λ q. q.0) pairs),
          handle_messages,
        )
        (acknowledged p (map (λ q. q.1) pairs)
          (record s { empty_polls = 0; results = s.results ++ map (λ q. q.0) pairs }) g)

  after_poll-Answered :
      (p : Poll) (pairs : List (SendEntry × DeleteEntry)) (s : Receiver)
      → map (λ q. q.1.receipt_handle) pairs ≡ receipts_of p.messages
      → Answered s p.messages (after_poll p pairs s)
  unfolding after_poll
  after_poll-Answered p pairs s k = (
    refl,
    refl,
    map-append (λ (e : DeleteEntry). e.receipt_handle) s.deleted (map (λ q. q.1) pairs)
        ∙ ap (λ l. deleted_receipts s ++ l)
            (map-map (λ (e : DeleteEntry). e.receipt_handle) (λ (q : SendEntry × DeleteEntry). q.1)
                pairs
              ∙ k),
    omega (
      arith,
      length-append s.results (map (λ (q : SendEntry × DeleteEntry). q.0) pairs),
      length-map (λ (q : SendEntry × DeleteEntry). q.0) pairs,
      length-map (λ (q : SendEntry × DeleteEntry). q.1.receipt_handle) pairs,
      length-map (λ (d : Delivery). d.message.receipt_handle) p.messages,
      ap length k,
    ),
  )

  takes :
      (p : Poll) (d : Delivery) (ds : List Delivery) (s : Receiver)
      → p.messages ≡ d ∷ ds
      → poll_step c int_sqrt p s ≡ handle_messages c int_sqrt p s
  unfolding poll_step
  takes p d ds s e = ground arith

  pub poll_answers :
      (p : Poll) (d : Delivery) (ds : List Delivery) (s : Receiver)
      → p.messages ≡ d ∷ ds
      → IsFine c p
      → (t : Receiver) × (poll_step c int_sqrt p s ≡ continue t) × Answered s p.messages t
  poll_answers p d ds s e (h, inl g) = absurd (cc)
  poll_answers p d ds s e (h, inr (f, g)) =
      let (fs, a, (pairs, b, k)) = readable-Built 0 p.messages h in
      let prepared : prepare c int_sqrt p.messages ≡ some pairs = unfold prepare in rw (a, b) in
      (
        after_poll p pairs s,
        takes p d ds s e ∙ delivers p pairs s prepared f g,
        after_poll-Answered p pairs s k,
      )

  pub poll_idles :
      (p : Poll) (s : Receiver)
      → p.messages ≡ []
      → poll_step c int_sqrt p s ≡ (
          if leb 3 (s.empty_polls + 1)
          then stop (record s { empty_polls = s.empty_polls + 1 })
          else continue (record s { empty_polls = s.empty_polls + 1 }))
  unfolding poll_step
  poll_idles p s e = ground arith
