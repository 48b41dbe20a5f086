-- ===== src/Process/Answers/Built.antt =====
-- What `_receiver_loop` builds of the messages that it is given.
use mathlib.Core.List.Memᴰ
use mathlib.Core.List.{Memᴰ}
use jim_tf.Base.{
  All-of_members, ℕ, ◌+◌, ◌≡◌, List, [], ◌∷◌, ◌++◌, arith, Conversions, some, All, >>=-eq-some,
}
use jim_tf.Factor.{do_factor}
use jim_tf.Sqs.{Message, SendEntry, DeleteEntry}
use jim_tf.Process.{Delivery, Poll, int_attribute, build_entry, build_entries, factors_of, prepare}

-- The messages that the queue gives over all polls.
abbrev pub delivered : List Poll → List Delivery
delivered [] = []
delivered (p ∷ ps) = p.messages ++ delivered ps

-- The messages that the queue gives to all threads.
abbrev pub delivered_to : List (List Poll) → List Delivery
delivered_to [] = []
delivered_to (polls ∷ threads) = delivered polls ++ delivered_to threads

abbrev pub AreIn : List Delivery → List Delivery → Type 0
AreIn all ds = All (λ d. Memᴰ d all) ds

-- What each poll gives is among what all polls give.
pub polls_in :
    (all : List Delivery) (ps : List Poll)
    → ((d : Delivery) → Memᴰ d (delivered ps) → Memᴰ d all)
    → All (λ p. AreIn all p.messages) ps
polls_in all [] f = tt
polls_in all (p ∷ ps) f = (
  All-of_members (λ d. Memᴰ d all) p.messages (λ d m. f d (Memᴰ.append_left (delivered ps) m)),
  polls_in all ps (λ d m. f d (Memᴰ.append_right p.messages m)),
)

module _ (c : Conversions) (int_sqrt : ℕ → ℕ) where
  built_id :
      (index : ℕ) (m : Message) (l : List ℕ) (f p : ℕ) (q : SendEntry × DeleteEntry)
      → build_entry c index m l f p ≡ some q
      → q.0.id ≡ q.1.id
  unfolding build_entry
  built_id index m l f p q h = ground arith

  factors_cons :
      (d : Delivery) (ds : List Delivery) (f : ℕ) (fs : List ℕ)
      → factors_of c int_sqrt (d ∷ ds) ≡ some (f ∷ fs)
      → (int_attribute c "Factor" d.message ≡ some f) × (factors_of c int_sqrt ds ≡ some fs)
  unfolding factors_of
  factors_cons d ds f fs h = ground arith

  build_cons :
      (index : ℕ) (d : Delivery) (ds : List Delivery) (f : ℕ) (fs : List ℕ)
      (q : SendEntry × DeleteEntry) (qs : List (SendEntry × DeleteEntry))
      → build_entries c int_sqrt index (d ∷ ds) (f ∷ fs) ≡ some (q ∷ qs)
      → (build_entry c index d.message (do_factor int_sqrt f) d.factor_time_ms d.pulled_time_ms
          ≡ some q)
        × (build_entries c int_sqrt (index + 1) ds fs ≡ some qs)
  unfolding build_entries
  build_cons index d ds f fs q qs h = ground arith

module _ (c : Conversions) (int_sqrt : ℕ → ℕ) (all : List Delivery) where
  -- The two entries were built for one message of `all`, with the list that `do_factor` gives.
  pub record Answers (q : SendEntry × DeleteEntry) : Type 0 where
    pub index : ℕ
    pub delivery : Delivery
    pub delivered : Memᴰ delivery all
    pub factor : ℕ
    pub asked : int_attribute c "Factor" delivery.message ≡ some factor
    pub built :
        build_entry c index delivery.message
          (do_factor int_sqrt factor)
          delivery.factor_time_ms
          delivery.pulled_time_ms
        ≡ some q

  pub same_id : (q : SendEntry × DeleteEntry) → Answers q → q.0.id ≡ q.1.id
  same_id q a =
      built_id c int_sqrt a.index a.delivery.message (do_factor int_sqrt a.factor)
        a.delivery.factor_time_ms a.delivery.pulled_time_ms q a.built

  build_entries-Answers :
      (index : ℕ) (ds : List Delivery) (fs : List ℕ) (pairs : List (SendEntry × DeleteEntry))
      → AreIn all ds
      → factors_of c int_sqrt ds ≡ some fs
      → build_entries c int_sqrt index ds fs ≡ some pairs
      → All Answers pairs
  build_entries-Answers index ds fs [] i e h = tt
  build_entries-Answers index [] fs (q ∷ qs) i e h = absurd (unfold build_entries in ground arith)
  build_entries-Answers index (d ∷ ds) [] (q ∷ qs) i e h =
      absurd (unfold build_entries in ground arith)
  build_entries-Answers index (d ∷ ds) (f ∷ fs) (q ∷ qs) i e h =
      let a = factors_cons c int_sqrt d ds f fs e in
      let b = build_cons c int_sqrt index d ds f fs q qs h in
      (
        record {
          index = index;
          delivery = d;
          delivered = i.0;
          factor = f;
          asked = a.0;
          built = b.0;
        },
        build_entries-Answers (index + 1) ds fs qs i.1 a.1 b.1,
      )

  pub prepare-Answers :
      (ds : List Delivery) (pairs : List (SendEntry × DeleteEntry))
      → AreIn all ds
      → prepare c int_sqrt ds ≡ some pairs
      → All Answers pairs
  unfolding prepare
  prepare-Answers ds pairs i h =
      let (fs, e, b) = >>=-eq-some (factors_of c int_sqrt ds) (build_entries c int_sqrt 0 ds) h in
      build_entries-Answers 0 ds fs pairs i e b
