-- ===== src/Tests.antt =====
-- Examples for all parts, in the modules below, and the data that several of them share.
pub mod Factors
pub mod Receiver
pub mod Stored
pub mod Threads
pub mod Unary
pub mod Primes
pub mod Load
pub mod Service
pub mod Alarms
pub mod Cluster
pub mod Flows
pub mod Checks
pub mod Connections
pub mod Pages
pub mod Statistics
pub mod Storage
pub mod Agent
use jim_tf.Base.{
  ℕ, String, Bool, Option, none, some, List, [], ◌∷◌, Dict, lookup, nat_key, string_key, get_or,
  is_some, Conversions, IsExact, IsExactList, refl, if◌then◌else◌,
}
use text.Mathlib.Text.{◌==◌}
use jim_tf.Sqs.{Attribute, Message}

abbrev texts : Dict ℕ String
texts = (0, "0") ∷ (1, "1") ∷ (6, "6") ∷ (7, "7") ∷ (100, "100") ∷ (140, "140") ∷ []

abbrev numbers : Dict String ℕ
numbers = ("0", 0) ∷ ("1", 1) ∷ ("6", 6) ∷ ("7", 7) ∷ ("100", 100) ∷ ("140", 140) ∷ []

-- Conversions that know a few numbers and one list.
abbrev pub few : Conversions
few = record {
  int = λ t. lookup t numbers;
  is_digit = λ t. is_some (lookup t numbers);
  str = λ n. get_or (lookup n texts) "other";
  str_list = λ l. "[1, 2, 3]";
  literal_eval = λ t. if t == "[1, 2, 3]" then some (1 ∷ 2 ∷ 3 ∷ []) else none;
}

-- The number 6 under scheme 1, sent at 100 ms.
abbrev pub request : Message
request = record {
  message_id = "m";
  receipt_handle = "r";
  sent_timestamp = "100";
  attributes =
      ("Factor", record { data_type = "Number"; string_value = "6" })
      ∷ ("Scheme", record { data_type = "Number"; string_value = "1" })
      ∷ ("Runtime", record { data_type = "String"; string_value = "python" })
      ∷ [];
}
