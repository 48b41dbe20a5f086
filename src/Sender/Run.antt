-- ===== src/Sender/Run.antt =====
-- The whole run of the load generator.
use jim_tf.Base.{ℕ, ◌≤◌, ◌≡◌, List, map, length, Bool, true, Conversions, All}
use jim_tf.Sender.{TestEntry, Settings, Draws, Sender, Sending, ready, done, raised}
use jim_tf.Sender.Plan.{count_from, ids}

abbrev pub FitsBatch : List TestEntry → Type 0
FitsBatch b = (1 ≤ length b) × (length b ≤ 10)

module _ (c : Conversions) (draws : Draws) (fails : List TestEntry → Bool) where
  -- The indices below `m` have been submitted, each once and in order.
  pub record Covers (m : ℕ) (s : Sender) : Type 0 where
    pub indices : ids s.sent ≡ map c.str (count_from 0 m)
    pub sizes : All FitsBatch s.sent

  -- How a run stands: complete, or cut short by a batch whose sending has raised.
  abbrev pub Planned : Settings → Sending → Type 0
  Planned k (ready s) = ⊥
  Planned k (done s) = (s.total_sent ≡ k.total_limit) × Covers k.total_limit s
  Planned k (raised s) =
      (m : ℕ) × (s.total_sent ≤ m)
      × (m ≤ k.total_limit)
      × Covers m s
      × ((b : List TestEntry) × (fails b ≡ true))

  abbrev Sends : ℕ → Sender → Sending → Type 0
  Sends m s (ready s') = (s'.total_sent ≡ m) × Covers m s'
  Sends m s (done s') = ⊥
  Sends m s (raised s') =
      (s'.total_sent ≡ s.total_sent) × Covers m s' × ((b : List TestEntry) × (fails b ≡ true))
