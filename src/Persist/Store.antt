-- ===== src/Persist/Store.antt =====
-- The database of the workers: the table of rows and the table of totals for each scheme.
pub mod Rows
use jim_tf.Base.{
  ℕ, ◌+◌, String, none, some, List, [], ◌∷◌, ◌++◌, Dict, lookup, insert, nat_key, string_key, min,
  max,
}
use jim_tf.Persist.Batch.{Batch}
use jim_tf.Persist.Parse.{RowData}

-- A row of `scheme_summary`, without its key.
pub record Summary : Type 0 where
  pub total_count : ℕ
  pub first_persisted_at_ms : ℕ
  pub last_persisted_at_ms : ℕ

pub record Database : Type 0 where
  pub factors : Dict ℕ RowData
  pub summary : Dict String Summary

-- `INSERT INTO factors … ON CONFLICT (sequence) DO NOTHING`, for one row and for all.
unfoldable pub insert_row : ℕ → RowData → Dict ℕ RowData → Dict ℕ RowData
insert_row sequence row factors = elim (lookup sequence factors) [
  | none ↦ insert sequence row factors
  | some _ ↦ factors
]

unfoldable pub insert_rows : List (ℕ × RowData) → Dict ℕ RowData → Dict ℕ RowData
unfolding insert_row
insert_rows [] factors = factors
insert_rows ((sequence, row) ∷ rows) factors = insert_rows rows (insert_row sequence row factors)

-- `_SUMMARY_UPSERT`, with `LEAST` and `GREATEST` for the two times.
unfoldable pub upsert : String → Batch → Dict String Summary → Dict String Summary
upsert scheme sb summary = elim (lookup scheme summary) [
  | none ↦
      insert scheme
        (record {
          total_count = sb.count;
          first_persisted_at_ms = sb.min_ms;
          last_persisted_at_ms = sb.max_ms;
        })
        summary
  | some old ↦
      insert scheme
        (record {
          total_count = old.total_count + sb.count;
          first_persisted_at_ms = min old.first_persisted_at_ms sb.min_ms;
          last_persisted_at_ms = max old.last_persisted_at_ms sb.max_ms;
        })
        summary
]

unfoldable pub upsert_all : Dict String Batch → Dict String Summary → Dict String Summary
unfolding upsert
upsert_all [] summary = summary
upsert_all ((scheme, sb) ∷ batches) summary = upsert_all batches (upsert scheme sb summary)
