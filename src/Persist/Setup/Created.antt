-- ===== src/Persist/Setup/Created.antt =====
-- A set-up that raises nothing.
use jim_tf.Base.{
  ◌≡◌, ◌⊎◌, refl, ap, ◌∙◌, inl, inr, String, Option, none, some, true, List, [], ◌∷◌, ◌++◌,
  Bool-cases,
}
use jim_tf.Persist.Setup.{
  Failure, operational, other, Server, Call, connects, creates, executes, closes, says_missing,
  then_call, create_db, ensure_db, factors_table, summary_table, set_up,
}

abbrev Progress : Type 0
Progress = Option Failure × List Call

then_call_lem :
    (r : Progress) (answer : Option Failure) (call : Call)
    → (then_call r answer call).0 ≡ none
    → (r.0 ≡ none) × ((then_call r answer call).1 ≡ r.1 ++ call ∷ [])
then_call_lem (some exc, calls) answer call h = cc
then_call_lem (none, calls) none call h = (refl, refl)
then_call_lem (none, calls) (some exc) call h = cc

create_db_lem :
    (name admin_db : String) (server : Server)
    → (create_db name admin_db server).0 ≡ none
    → (create_db name admin_db server).1
      ≡ connects admin_db ∷ creates name ∷ closes ∷ connects name ∷ []
unfolding create_db
create_db_lem name admin_db server h =
    let connected = then_call (none, []) server.admin (connects admin_db) in
    let created = then_call connected server.create (creates name) in
    let closed = then_call created none closes in
    let (h3, e3) = then_call_lem closed server.second (connects name) h in
    let (h2, e2) = then_call_lem created none closes h3 in
    let (h1, e1) = then_call_lem connected server.create (creates name) h2 in
    let (h0, e0) = then_call_lem (none, []) server.admin (connects admin_db) h1 in
    e3
    ∙ ap (λ l. l ++ connects name ∷ [])
        (e2 ∙ ap (λ l. l ++ closes ∷ []) (e1 ∙ ap (λ l. l ++ creates name ∷ []) e0))

-- The database was there, or its want was what the first connection failed for.
abbrev Opened : String → String → Server → List Call → Type 0
Opened name admin_db server calls =
    ((server.first ≡ none) × (calls ≡ connects name ∷ []))
    ⊎ ((exc : String) × (server.first ≡ some (operational exc))
        × (says_missing name exc ≡ true)
        × (calls ≡ connects admin_db ∷ creates name ∷ closes ∷ connects name ∷ []))

ensure_db-Opened :
    (name admin_db : String) (server : Server)
    → (ensure_db name admin_db server).0 ≡ none
    → Opened name admin_db server (ensure_db name admin_db server).1
unfolding ensure_db
ensure_db-Opened name admin_db server h = by_first server.first refl
  where
    by_first :
        (o : Option Failure)
        → server.first ≡ o
        → Opened name admin_db server (ensure_db name admin_db server).1
    by_first none e = inl (e, (rw (e, ensure_db) refl))
    by_first (some (other exc)) e = absurd (let g = rw (e, ensure_db) at h in cc)
    by_first (some (operational exc)) e = elim (Bool-cases (says_missing name exc)) [
      | inl m ↦
          let k : (create_db name admin_db server).0 ≡ none = rw (e, ensure_db, m) at h in
          inr (exc, e, m, (rw (e, ensure_db, m) (create_db_lem name admin_db server k)))
      | inr m ↦ absurd (let g = rw (e, ensure_db, m) at h in cc)
    ]

-- A set-up that raises nothing has opened the database, which it created only if the first connection
-- failed for want of it, and then both tables exist and the connection is closed.
set_up-Opened :
    (name admin_db : String) (server : Server)
    → (set_up name admin_db server).0 ≡ none
    → (calls : List Call) × Opened name admin_db server calls
      × ((set_up name admin_db server).1
          ≡ calls ++ executes factors_table ∷ [] ++ executes summary_table ∷ [] ++ closes ∷ [])
unfolding set_up
set_up-Opened name admin_db server h =
    let opened = ensure_db name admin_db server in
    let one = then_call opened (server.table factors_table) (executes factors_table) in
    let both = then_call one (server.table summary_table) (executes summary_table) in
    let (h2, e2) = then_call_lem both none closes h in
    let (h1, e1) = then_call_lem one (server.table summary_table) (executes summary_table) h2 in
    let (h0, e0) = then_call_lem opened (server.table factors_table) (executes factors_table) h1 in
    (
      opened.1,
      ensure_db-Opened name admin_db server h0,
      e2 ∙ ap (λ l. l ++ closes ∷ []) (e1 ∙ ap (λ l. l ++ executes summary_table ∷ []) e0),
    )
