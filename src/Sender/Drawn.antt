-- ===== src/Sender/Drawn.antt =====
-- What the load generator sends, whatever is refused: entries for the numbers it has drawn.
use jim_tf.Base.{
  ℕ, zero, suc, ◌+◌, ◌-◌, ◌≡◌, refl, List, [], ◌++◌, Bool, true, ltb, min, Conversions, All,
  All-append, Bool-cases, inl, inr,
}
use jim_tf.Sender.{
  TestEntry, Settings, Draws, Sender, Sending, ready, done, raised, batch_size, test_entry,
  build_entries, batches_from, any_fails, send_messages, top_up, run,
}

abbrev pub sender_of : Sending → Sender
sender_of (ready s) = s
sender_of (done s) = s
sender_of (raised s) = s

module _ (c : Conversions) (draws : Draws) where
  -- An entry for the factor of some index, under the scheme of some call of `_pick_scheme`.
  pub record IsDrawn (e : TestEntry) : Type 0 where
    pub index : ℕ
    pub pick : ℕ
    pub made : e ≡ test_entry c draws index (draws.scheme pick)

  abbrev pub AllDrawn : List (List TestEntry) → Type 0
  AllDrawn bs = All (All IsDrawn) bs

  build_entries-Drawn :
      (start n pick : ℕ) → All IsDrawn (build_entries c draws start n (draws.scheme pick))
  unfolding build_entries
  build_entries-Drawn start zero pick = tt
  build_entries-Drawn start (suc n) pick =
      (record { index = start; pick = pick; made = refl }, build_entries-Drawn (start + 1) n pick)

  batches_from-Drawn :
      (rounds start count pick offset : ℕ)
      → AllDrawn (batches_from c draws rounds start count (draws.scheme pick) offset)
  unfolding batches_from
  batches_from-Drawn zero start count pick offset = tt
  batches_from-Drawn (suc rounds) start count pick offset = elim (Bool-cases (ltb start count)) [
    | inr last ↦ rw last tt
    | inl more ↦ rw more (
      build_entries-Drawn (offset + start) (min batch_size (count - start)) pick,
      batches_from-Drawn rounds (start + batch_size) count pick offset,
    )
  ]

  module _ (fails : List TestEntry → Bool) where
    send_messages-Drawn :
        (count pick : ℕ) (s : Sender)
        → AllDrawn s.sent
        → AllDrawn (sender_of (send_messages c draws fails count (draws.scheme pick) s)).sent
    unfolding send_messages
    send_messages-Drawn count pick s h =
        let batches = batches_from c draws count 0 count (draws.scheme pick) s.total_sent in
        let both : AllDrawn (s.sent ++ batches) =
          All-append (All IsDrawn) s.sent batches h
            (batches_from-Drawn count 0 count pick s.total_sent) in
        elim (Bool-cases (any_fails c draws fails batches)) [
          | inl e ↦ rw e both
          | inr e ↦ rw e both
        ]

    top_up-Drawn :
        (fuel : ℕ) (k : Settings) (s : Sender)
        → AllDrawn s.sent
        → AllDrawn (sender_of (top_up c draws fuel fails k s)).sent
    top_up-Drawn zero k s h = unfold top_up in h
    top_up-Drawn (suc fuel) k s h = elim (Bool-cases (ltb s.total_sent k.total_limit)) [
      | inr e ↦ unfold top_up in rw (e, top_up) h
      | inl e ↦
          by_sending e
            (send_messages c draws fails (min k.topup_messages (k.total_limit - s.total_sent))
              (draws.scheme s.total_sent) s)
            refl
            (send_messages-Drawn (min k.topup_messages (k.total_limit - s.total_sent)) s.total_sent
              s h)
            (top_up-Drawn fuel k)
    ]
      where
        by_sending :
            ltb s.total_sent k.total_limit ≡ true
            → (r : Sending)
            → send_messages c draws fails
                (min k.topup_messages (k.total_limit - s.total_sent))
                (draws.scheme s.total_sent)
                s
              ≡ r
            → AllDrawn
                (sender_of (
                  send_messages c draws fails
                    (min k.topup_messages (k.total_limit - s.total_sent))
                    (draws.scheme s.total_sent)
                    s)).sent
            → ((t : Sender)
                → AllDrawn t.sent
                → AllDrawn (sender_of (top_up c draws fuel fails k t)).sent)
            → AllDrawn (sender_of (top_up c draws (suc fuel) fails k s)).sent
        by_sending more (ready t) e d ih = unfold top_up in rw (more, e, top_up) (ih t (rw e at d))
        by_sending more (done t) e d ih = unfold top_up in rw (more, e, top_up) (rw e at d)
        by_sending more (raised t) e d ih = unfold top_up in rw (more, e, top_up) (rw e at d)

    pub run-Drawn : (fuel : ℕ) (k : Settings) → AllDrawn (sender_of (run c draws fuel fails k)).sent
    run-Drawn fuel k =
        by_sending (send_messages c draws fails k.initial_messages (draws.scheme 0) nothing) refl
          (send_messages-Drawn k.initial_messages 0 nothing tt)
      where
        nothing : Sender
        nothing = record { total_sent = 0; sent = [] }

        by_sending :
            (r : Sending)
            → send_messages c draws fails k.initial_messages (draws.scheme 0) nothing ≡ r
            → AllDrawn
                (sender_of
                  (send_messages c draws fails k.initial_messages (draws.scheme 0) nothing)).sent
            → AllDrawn (sender_of (run c draws fuel fails k)).sent
        by_sending (ready t) e d = unfold run in rw (e, run) (top_up-Drawn fuel k t (rw e at d))
        by_sending (done t) e d = unfold run in rw (e, run) (rw e at d)
        by_sending (raised t) e d = unfold run in rw (e, run) (rw e at d)
