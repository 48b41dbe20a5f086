-- ===== src/Persist/Batch.antt =====
-- The counts that a worker keeps for each scheme between two commits.
pub mod Totals
use jim_tf.Base.{ℕ, ◌+◌, String, none, some, Dict, lookup, insert, ltb, string_key, if◌then◌else◌}

pub record Batch : Type 0 where
  pub count : ℕ
  pub min_ms : ℕ
  pub max_ms : ℕ

unfoldable pub bump : ℕ → Batch → Batch
bump ts_ms sb = record {
  count = sb.count + 1;
  min_ms = if ltb ts_ms sb.min_ms then ts_ms else sb.min_ms;
  max_ms = if ltb sb.max_ms ts_ms then ts_ms else sb.max_ms;
}

-- One parsed message of `scheme` with the time `ts_ms`.
unfoldable pub add_to_batches : String → ℕ → Dict String Batch → Dict String Batch
unfolding bump
add_to_batches scheme ts_ms scheme_batches = elim (lookup scheme scheme_batches) [
  | none ↦ insert scheme (record { count = 1; min_ms = ts_ms; max_ms = ts_ms }) scheme_batches
  | some sb ↦ insert scheme (bump ts_ms sb) scheme_batches
]
