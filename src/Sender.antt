-- ===== src/Sender.antt =====
-- infrastructure/code/test_msg.py: the load generator, which fills the factor queue.
pub mod Plan
pub mod Run
pub mod Drawn
use jim_tf.Base.{
  ℕ, zero, suc, ◌+◌, ◌-◌, String, List, [], ◌∷◌, ◌++◌, Dict, Bool, true, false, ltb, min,
  Conversions, if◌then◌else◌, ◌||◌,
}
use jim_tf.Sqs.{Attribute}

pub record TestEntry : Type 0 where
  pub id : String
  pub message_body : String
  pub message_attributes : Dict String Attribute

-- The constants of the program, as one record.
pub record Settings : Type 0 where
  pub initial_messages : ℕ
  pub topup_messages : ℕ
  pub total_limit : ℕ

abbrev pub settings : Settings
settings = record { initial_messages = 200000; topup_messages = 100000; total_limit = 700000 }

abbrev pub batch_size : ℕ
batch_size = 10

-- What the calls of `random` give: the scheme of each call of `_pick_scheme`, by the count of messages
-- sent before it, and the factor for each message index.
pub record Draws : Type 0 where
  pub scheme : ℕ → ℕ
  pub factor : ℕ → ℕ

-- The messages submitted so far, batch by batch, and the counter of the main program.
pub record Sender : Type 0 where
  pub total_sent : ℕ
  pub sent : List (List TestEntry)

pub data Sending : Type 0 where
  ready done raised : Sender → Sending

module _ (c : Conversions) (draws : Draws) where
  unfoldable pub test_entry : ℕ → ℕ → TestEntry
  test_entry msg_index scheme = record {
    id = c.str msg_index;
    message_body = "test";
    message_attributes =
        ("Factor", record { data_type = "Number"; string_value = c.str (draws.factor msg_index) })
        ∷ ("Scheme", record { data_type = "Number"; string_value = c.str scheme })
        ∷ ("Runtime", record { data_type = "String"; string_value = "python" })
        ∷ [];
  }

  -- `for offset in range(count)`, from `start_index`.
  unfoldable pub build_entries : ℕ → ℕ → ℕ → List TestEntry
  unfolding test_entry
  build_entries start_index zero scheme = []
  build_entries start_index (suc count) scheme =
      test_entry start_index scheme ∷ build_entries (start_index + 1) count scheme

  -- `for start in range(0, count, BATCH_SIZE)` of `_send_messages`, on the rounds that may be left.
  unfoldable pub batches_from : ℕ → ℕ → ℕ → ℕ → ℕ → List (List TestEntry)
  unfolding build_entries
  batches_from zero start count scheme offset = []
  batches_from (suc rounds) start count scheme offset =
      let rest = batches_from rounds (start + batch_size) count scheme offset in
      if ltb start count
      then build_entries (offset + start) (min batch_size (count - start)) scheme ∷ rest
      else []

  abbrev pub any_fails : (List TestEntry → Bool) → List (List TestEntry) → Bool
  any_fails fails [] = false
  any_fails fails (b ∷ bs) = fails b || any_fails fails bs

  -- `_send_messages`: every batch is submitted to the executor, and if `_send_batch` has raised for one,
  -- `future.result()` raises afterwards. `fails` tells for which batches it raises: the call raises, or
  -- the service refuses a part of the batch. When the executor runs a batch is outside the model.
  unfoldable pub send_messages : (List TestEntry → Bool) → ℕ → ℕ → Sender → Sending
  unfolding batches_from
  send_messages fails count scheme s =
      let batches = batches_from count 0 count scheme s.total_sent in
      let s' : Sender = record s { sent = s.sent ++ batches } in
      if any_fails fails batches
      then raised s'
      else ready (record s' { total_sent = s.total_sent + count })

  -- `while total_sent < TOTAL_LIMIT`; the fuel running out leaves it `ready`.
  unfoldable pub top_up : ℕ → (List TestEntry → Bool) → Settings → Sender → Sending
  top_up zero fails k s = ready s
  top_up (suc fuel) fails k s = elim (ltb s.total_sent k.total_limit) [
    | false ↦ done s
    | true ↦
        elim (send_messages fails (min k.topup_messages (k.total_limit - s.total_sent))
          (draws.scheme s.total_sent) s) [
            | ready s' ↦ top_up fuel fails k s'
            | done s' ↦ done s'
            | raised s' ↦ raised s'
          ]
  ]

  -- The main program.
  unfoldable pub run : ℕ → (List TestEntry → Bool) → Settings → Sending
  run fuel fails k =
      elim (send_messages fails k.initial_messages (draws.scheme 0)
        (record { total_sent = 0; sent = [] })) [
          | ready s' ↦ top_up fuel fails k s'
          | done s' ↦ done s'
          | raised s' ↦ raised s'
        ]
