-- ===== src/Pipeline/Reported.antt =====
-- What infrastructure/code/report.py prints of the rows that the pipeline has stored.
use mathlib.Core.List.{Memᴰ}
use jim_tf.Base.{
  ℕ, ◌≡◌, ◌↔◌, ap, sym, ◌∙◌, String, none, some, true, List, Conversions, IsExact, IsExactList, All,
  Dict, Distinct, lookup, lookup-member, member-keep, nat_key, nat_eq_iff, length, Option-cases,
  inl, inr,
}
use jim_tf.Factor.{do_factor}
use jim_tf.Factor.Members.{IsFloorSqrt}
use jim_tf.Process
use jim_tf.Persist.Parse.{RowData}
use jim_tf.Persist.Setup.{Server, executes, then_call, ensure_db}
use jim_tf.Persist.Worker.{World, Poll}
use jim_tf.Persist.Pool.{persist}
use jim_tf.Persist.Pool.Once.{persist-Distinct}
use jim_tf.Report.{sql1, has_one_factor, select, report}
use jim_tf.Report.Primes.{IsPrime, length-do_factor}
use jim_tf.Pipeline.Rows.{IsAnswer, AllSent, persist-Answers}

-- A report that is not cut short by an exception prints what the statement selects.
report_lines :
    (name admin_db : String) (server : Server) (factors : Dict ℕ RowData)
    → (report name admin_db server factors).raised ≡ none
    → (report name admin_db server factors).lines ≡ select factors
unfolding report
report_lines name admin_db server factors h =
    elim (Option-cases
      (then_call (ensure_db name admin_db server) (server.table sql1) (executes sql1)).0) [
        | inl e ↦ rw (e, report)
        | inr (exc, e) ↦ absurd (let k = rw (e, report) at h in cc)
      ]

module _ (c : Conversions) (int_sqrt : ℕ → ℕ) (threads : List (List Process.Poll)) where
  -- The statement's condition, for a row that answers a request.
  one_factor-IsPrime :
      (q : ℕ) (row : RowData)
      → IsFloorSqrt (int_sqrt row.factor) row.factor
      → IsAnswer c int_sqrt threads row
      → (has_one_factor (q, row) ≡ true) ↔ IsPrime row.factor
  unfolding has_one_factor
  one_factor-IsPrime q row h a =
      let e = length-do_factor int_sqrt row.factor h in
      let l : length row.result ≡ length (do_factor int_sqrt row.factor) = ap length a.result in
      let b = nat_eq_iff (length row.result) 1 in (λ t. e.0 (sym l ∙ b.0 t), λ p. b.1 (l ∙ e.1 p))

  module _ (exact : (n : ℕ) → IsExact c n) (exact_list : (l : List ℕ) → IsExactList c l) where
    -- If no call of the report raises, it prints a row for whose factor the limit of `do_factor` is the
    -- integer square root if and only if the persist workers have stored the row and its factor is
    -- prime. This is for workers that are given only entries that receiver threads have sent, over a
    -- table whose identifiers are distinct and whose rows answer requests, whatever the order of
    -- their rounds and however they end, and Python reads back each number and each list as it
    -- printed them.
    pub report-primes :
        (commit_size : ℕ) (before : World) (name admin_db : String) (servers : List Server)
        (rounds : List (ℕ × Poll))
        → All (λ r. AllSent c int_sqrt threads r.1.messages) rounds
        → Distinct before.database.factors
        → ((q : ℕ) (row : RowData)
            → lookup q before.database.factors ≡ some row
            → IsAnswer c int_sqrt threads row)
        → (server : Server)
        → (report name admin_db server
            (persist c commit_size name admin_db servers rounds
              before).world.database.factors).raised
          ≡ none
        → (q : ℕ) (row : RowData) → IsFloorSqrt (int_sqrt row.factor) row.factor
        → Memᴰ
            (q, row)
            (report name admin_db server
              (persist c commit_size name admin_db servers rounds
                before).world.database.factors).lines
          ↔ (Memᴰ
                (q, row)
                (persist c commit_size name admin_db servers rounds before).world.database.factors
              × IsPrime row.factor)
    report-primes commit_size before name admin_db servers rounds sent distinct old server h q row
          floor =
        let table =
          (persist c commit_size name admin_db servers rounds before).world.database.factors in
        let once : Distinct table =
          persist-Distinct c commit_size name admin_db servers rounds before distinct in
        let answers : Memᴰ (q, row) table → IsAnswer c int_sqrt threads row = λ m.
          persist-Answers c int_sqrt threads exact exact_list commit_size before name admin_db
            servers rounds sent old q row (lookup-member q row table once m) in
        let prime = λ (a : IsAnswer c int_sqrt threads row). one_factor-IsPrime q row floor a in
        let kept = member-keep has_one_factor (q, row) table in
        rw (report_lines name admin_db server table h) (
          λ m. let k = kept.0 (unfold select in m) in (k.0, (prime (answers k.0)).0 k.1),
          λ k. unfold select in kept.1 (k.0, (prime (answers k.0)).1 k.1),
        )
