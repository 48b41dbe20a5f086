-- ===== src/Persist/Pool/Ends.antt =====
-- A pool whose workers have all come to their end.
use jim_tf.Base.{
  ℕ, ◌+◌, ◌≤◌, ◌≡◌, inl, inr, refl, ap, ◌∙◌, String, Bool, true, false, Option, none, some, is_some,
  List, [], ◌∷◌, map, Conversions, All, All-of_members, member-le-total, lookup, nat_key, nat_eq,
  nat_eq_iff, string_key, total, flat, arith, ◌==◌,
}
use mathlib.Core.List.{Memᴰ}
use jim_tf.Persist.Parse.{Parsed, RowData}
use jim_tf.Persist.Batch.Totals.{merge, one, tally}
use jim_tf.Persist.Store.{Summary}
use jim_tf.Persist.Store.Rows.{or_else}
use jim_tf.Persist.Worker.{World, Poll}
use jim_tf.Persist.Worker.Tracks.{receipts_of, entry}
use jim_tf.Persist.Setup.{Server}
use jim_tf.Persist.Pool.{Thread, polling, ended, broken, Pool, submitted, persist}
use jim_tf.Persist.Pool.Rounds.{AllHold, HasBroken}
use jim_tf.Persist.Pool.Account.{parsed_over, Accounted, persist-Accounted}

abbrev pub AllEnded : List Thread → Type 0
AllEnded [] = Unit
AllEnded (ended ∷ ts) = AllEnded ts
AllEnded (polling b ∷ ts) = ⊥
AllEnded (broken ∷ ts) = ⊥

none_held :
    (ts : List Thread) (held : List (List Parsed)) → AllEnded ts → AllHold ts held → flat held ≡ []
none_held [] [] e h = refl
none_held [] (x ∷ xs) e h = absurd h
none_held (t ∷ ts) [] e h = absurd h
none_held (ended ∷ ts) (kept ∷ held) e h = rw (h.0) (none_held ts held e h.1)
none_held (polling b ∷ ts) (kept ∷ held) e h = absurd e
none_held (broken ∷ ts) (kept ∷ held) e h = absurd e

none_broken : (ts : List Thread) → AllEnded ts → ¬ HasBroken ts
none_broken [] e h = h
none_broken (ended ∷ ts) e h = none_broken ts e h
none_broken (polling b ∷ ts) e h = e
none_broken (broken ∷ ts) e h = e

-- 1 for what is counted.
abbrev pub hit : Bool → ℕ
hit true = 1
hit false = 0

-- The messages of a scheme that the table of totals has counted.
abbrev pub count_of : Option Summary → ℕ
count_of none = 0
count_of (some t) = t.total_count

count_of-merge : (a b : Option Summary) → count_of (merge a b) ≡ count_of a + count_of b
count_of-merge none b = omega arith
count_of-merge (some a) none = omega arith
count_of-merge (some a) (some b) = refl

count_of-tally :
    (s : String) (ps : List Parsed) → count_of (tally s ps) ≡ total (λ m. hit (m.scheme == s)) ps
count_of-tally s [] = refl
count_of-tally s (p ∷ ps) =
    count_of-merge (one p.scheme s p.ts_ms) (tally s ps) ∙ ground (arith, count_of-tally s ps)

lookup-entries :
    (q : ℕ) (ps : List Parsed)
    → 1 ≤ total (λ m. hit (nat_eq m.sequence q)) ps
    → is_some (lookup q (map entry ps)) ≡ true
lookup-entries q [] h = absurd (omega arith)
lookup-entries q (p ∷ ps) h = ground (arith, lookup-entries q ps)

or_else_found : (a b : Option RowData) → is_some b ≡ true → is_some (or_else a b) ≡ true
or_else_found none b h = h
or_else_found (some a) b h = refl

-- If the account is of a pool whose threads have ended: what the tables and the deletions say.
module _ (start : World) (seen : List Parsed) (ts : List Thread) (w : World)
    (a : Accounted start seen ts w) (e : AllEnded ts) where
  all_committed : (f : Parsed → ℕ) → total f a.committed ≡ total f seen
  all_committed f = omega (arith, a.balance f, ap (total f) (none_held ts a.held e a.holding))

  all_deleted : a.undeleted ≡ []
  all_deleted = elim a.clean [ inl b ↦ absurd (none_broken ts e b) | inr u ↦ u ]

  scheme_count :
      (s : String)
      → count_of (lookup s w.database.summary)
        ≡ count_of (lookup s start.database.summary) + total (λ m. hit (m.scheme == s)) seen
  scheme_count s =
      ap count_of (a.stores.totals s)
      ∙ count_of-merge (lookup s start.database.summary) (tally s a.committed)
      ∙ ap (λ n. count_of (lookup s start.database.summary) + n)
          (count_of-tally s a.committed ∙ all_committed (λ m. hit (m.scheme == s)))

  row_of : (m : Parsed) → Memᴰ m seen → is_some (lookup m.sequence w.database.factors) ≡ true
  row_of m t =
      let f : Parsed → ℕ = λ p. hit (nat_eq p.sequence m.sequence) in
      let one : f m ≡ 1 = ap hit ((nat_eq_iff m.sequence m.sequence).1 refl) in
      ap is_some (a.stores.factors m.sequence)
      ∙ or_else_found (lookup m.sequence start.database.factors) _ (
          lookup-entries m.sequence a.committed
            (omega (arith, all_committed f, member-le-total f seen t, one)))

  deletions :
      (r : String)
      → total (λ x. hit (x == r)) (receipts_of w.delete_calls)
        ≡ total (λ x. hit (x == r)) (receipts_of start.delete_calls)
          + total (λ m. hit (m.receipt == r)) seen
  deletions r = omega (
    arith,
    a.deleted (λ x. hit (x == r)),
    ap (total (λ x. hit (x == r))) all_deleted,
    all_committed (λ m. hit (m.receipt == r)),
  )

module _ (c : Conversions) (commit_size : ℕ) (start : World) (name admin_db : String)
    (servers : List Server) (rounds : List (ℕ × Poll)) where
  -- The messages that the threads parse.
  abbrev pub seen : List Parsed
  seen = parsed_over c commit_size rounds (submitted name admin_db servers) start

  abbrev pub end : Pool
  end = persist c commit_size name admin_db servers rounds start

  -- If all threads of the pool have ended without an exception, then in whatever order their rounds
  -- happened and whatever the queue gave them: the count of each scheme has grown by the number of
  -- messages of it that the threads have parsed, each of these messages has a row under its
  -- identifier, and each receipt has been deleted as often as such a message came with it, over what
  -- was deleted before.
  pub persist-exact :
      AllEnded end.threads
      → ((s : String)
          → count_of (lookup s end.world.database.summary)
            ≡ count_of (lookup s start.database.summary) + total (λ m. hit (m.scheme == s)) seen)
        × All (λ m. is_some (lookup m.sequence end.world.database.factors) ≡ true) seen
        × ((r : String)
            → total (λ x. hit (x == r)) (receipts_of end.world.delete_calls)
              ≡ total (λ x. hit (x == r)) (receipts_of start.delete_calls)
                + total (λ m. hit (m.receipt == r)) seen)
  persist-exact e =
      let a = persist-Accounted c commit_size start name admin_db servers rounds in
      (
        scheme_count start seen end.threads end.world a e,
        All-of_members _ seen (row_of start seen end.threads end.world a e),
        deletions start seen end.threads end.world a e,
      )
