-- ===== src/Sqs.antt =====
-- What the pipeline's programs send through the queues and read from them: messages with text
-- attributes, and the entries of the batch calls.
use jim_tf.Base.{ℕ, String, Option, none, some, Dict, lookup, string_key}

-- `{'DataType': …, 'StringValue': …}`
pub record Attribute : Type 0 where
  pub data_type : String
  pub string_value : String

-- A received message. `sent_timestamp` is `Attributes.SentTimestamp`, which `AttributeNames=['All']`
-- makes the queue add.
pub record Message : Type 0 where
  pub message_id : String
  pub receipt_handle : String
  pub sent_timestamp : String
  pub attributes : Dict String Attribute

-- `MessageAttributes[name]["StringValue"]`; `none` where the source raises `KeyError`, and where
-- `.get(name, {}).get("StringValue")` is `None`.
unfoldable pub string_value : String → Message → Option String
string_value name m = elim (lookup name m.attributes) [ none ↦ none | some a ↦ some a.string_value ]

pub record SendEntry : Type 0 where
  pub id : String
  pub delay_seconds : ℕ
  pub attributes : Dict String Attribute
  pub body : String

pub record DeleteEntry : Type 0 where
  pub id : String
  pub receipt_handle : String
