-- ===== src/Report.antt =====
-- infrastructure/code/report.py: the stored rows with one factor. The program opens the database as
-- the persist worker does (Persist/Setup).
pub mod Primes
use jim_tf.Base.{
  ℕ, String, Option, none, some, Bool, List, [], ◌∷◌, ◌++◌, Dict, keep, length, nat_eq,
}
use jim_tf.Persist.Parse.{RowData}
use jim_tf.Persist.Setup.{Failure, Server, Call, executes, closes, then_call, ensure_db}

abbrev pub sql1 : String
sql1 = "select * from factors where json_array_length(\"data\"::json -> 'result') = 1"

-- The statement's condition.
unfoldable pub has_one_factor : ℕ × RowData → Bool
has_one_factor (sequence, row) = nat_eq (length row.result) 1

-- What the statement selects, in the order of the table.
unfoldable pub select : Dict ℕ RowData → List (ℕ × RowData)
unfolding has_one_factor
select factors = keep has_one_factor factors

-- What a run prints, with the exception that ends it and the calls that have returned.
pub record Printed : Type 0 where
  pub raised : Option Failure
  pub calls : List Call
  pub lines : List (ℕ × RowData)

unfoldable pub report : String → String → Server → Dict ℕ RowData → Printed
unfolding ensure_db select
report name admin_db server factors =
    let (raised, calls) =
      then_call (ensure_db name admin_db server) (server.table sql1) (executes sql1) in
    elim raised [
      | some exc ↦ record { raised = some exc; calls = calls; lines = [] }
      | none ↦ record { raised = none; calls = calls ++ closes ∷ []; lines = select factors }
    ]
