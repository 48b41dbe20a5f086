-- ===== src/Persist/Worker/Tracks.antt =====
-- The worker against the list of messages that it has parsed: what is committed, what is buffered,
-- what is deleted.
use jim_tf.Base.{
  ℕ, zero, suc, ◌+◌, ◌≤◌, ◌≡◌, refl, sym, ap, ◌∙◌, String, none, some, List, [], ◌∷◌, ◌++◌, map,
  length, take, drop, lookup, Distinct, nat_key, string_key, arith, Conversions, append-nil,
  append_assoc, map-append, take-append-drop, length-drop, Option-cases, inl, inr,
}
use jim_tf.Sqs.{Message, DeleteEntry}
use jim_tf.Persist.Parse.{Reading, Parsed, RowData, parse_message}
use jim_tf.Persist.Batch.Totals.{
  merge, merge-none, one, tally, tally-append, as_summary, lookup-add_to_batches,
  add_to_batches-Distinct,
}
use jim_tf.Persist.Store.Rows.{or_else}
use jim_tf.Persist.Worker.{Buffers, World, delete_entries, batches_of_ten, add_parsed, gather, Poll}

-- The receipts of all entries of the calls.
abbrev pub receipts_of : List (List DeleteEntry) → List String
receipts_of [] = []
receipts_of (call ∷ calls) = map (λ e. e.receipt_handle) call ++ receipts_of calls

pub receipts_of-append :
    (xs ys : List (List DeleteEntry)) → receipts_of (xs ++ ys) ≡ receipts_of xs ++ receipts_of ys
receipts_of-append [] ys = refl
receipts_of-append (x ∷ xs) ys =
    rw (receipts_of-append xs ys)
      (sym (append_assoc (map (λ e. e.receipt_handle) x) (receipts_of xs) (receipts_of ys)))

abbrev pub entry : Parsed → ℕ × RowData
entry p = (p.sequence, p.row)

abbrev pub parsed_of : Conversions → List (Message × Reading) → List Parsed
parsed_of c [] = []
parsed_of c ((m, now) ∷ ms) = elim (parse_message c m now) [
  | none ↦ parsed_of c ms
  | some p ↦ p ∷ parsed_of c ms
]

abbrev pub parsed_in : Conversions → List Poll → List Parsed
parsed_in c [] = []
parsed_in c (p ∷ ps) = parsed_of c p.messages ++ parsed_in c ps

-- The buffers hold the messages that are not committed.
pub record Holds (pending : List Parsed) (b : Buffers) : Type 0 where
  pub rows : b.rows ≡ map entry pending
  pub receipts : b.receipts ≡ map (λ p. p.receipt) pending
  pub distinct : Distinct b.scheme_batches
  pub batches : (s : String) → as_summary (lookup s b.scheme_batches) ≡ tally s pending

-- The tables are those of the start with the committed messages added.
pub record Stores (start : World) (committed : List Parsed) (w : World) : Type 0 where
  pub totals :
      (s : String)
      → lookup s w.database.summary ≡ merge (lookup s start.database.summary) (tally s committed)
  pub factors :
      (q : ℕ)
      → lookup q w.database.factors
        ≡ or_else (lookup q start.database.factors) (lookup q (map entry committed))

module _ (c : Conversions) where
  receipts-delete_entries :
      (j : ℕ) (rs : List String) → map (λ e. e.receipt_handle) (delete_entries c j rs) ≡ rs
  unfolding delete_entries
  receipts-delete_entries j [] = refl
  receipts-delete_entries j (r ∷ rs) = ap (◌∷◌ r) (receipts-delete_entries (j + 1) rs)

  -- With as many rounds as receipts, the batches hold every receipt once, in order.
  pub receipts-batches_of_ten :
      (k : ℕ) (rs : List String) → length rs ≤ k → receipts_of (batches_of_ten c k rs) ≡ rs
  unfolding batches_of_ten
  receipts-batches_of_ten zero [] h = refl
  receipts-batches_of_ten zero (r ∷ rs) h = absurd (omega arith)
  receipts-batches_of_ten (suc k) [] h = refl
  receipts-batches_of_ten (suc k) (r ∷ rs) h =
      rw
        (
          receipts-delete_entries 0 (take 10 (r ∷ rs)),
          receipts-batches_of_ten k (drop 10 (r ∷ rs)) (omega (arith, length-drop 10 (r ∷ rs))),
        )
        (take-append-drop 10 (r ∷ rs))

  add_parsed-Holds :
      (p : Parsed) (pending : List Parsed) (b : Buffers)
      → Holds pending b
      → Holds (pending ++ p ∷ []) (add_parsed c p b)
  unfolding add_parsed
  add_parsed-Holds p pending b h = record {
    rows = rw (h.rows, map-append);
    receipts = rw (h.receipts, map-append);
    distinct = add_to_batches-Distinct p.scheme p.ts_ms b.scheme_batches h.distinct;
    batches = λ s.
        lookup-add_to_batches p.scheme s p.ts_ms b.scheme_batches
        ∙ ap (λ t. merge t (one p.scheme s p.ts_ms)) (h.batches s)
        ∙ ap (merge (tally s pending)) (sym (merge-none (one p.scheme s p.ts_ms)))
        ∙ sym (tally-append s pending (p ∷ []));
  }

  gather_skips :
      (m : Message) (now : Reading) (ms : List (Message × Reading)) (b : Buffers)
      → parse_message c m now ≡ none
      → gather c ((m, now) ∷ ms) b ≡ gather c ms b
  unfolding gather
  gather_skips m now ms b e = rw e

  gather_adds :
      (m : Message) (now : Reading) (ms : List (Message × Reading)) (b : Buffers) (p : Parsed)
      → parse_message c m now ≡ some p
      → gather c ((m, now) ∷ ms) b ≡ gather c ms (add_parsed c p b)
  unfolding gather
  gather_adds m now ms b p e = rw e

  pub gather-Holds :
      (ms : List (Message × Reading)) (pending : List Parsed) (b : Buffers)
      → Holds pending b
      → Holds (pending ++ parsed_of c ms) (gather c ms b)
  gather-Holds [] pending b h = unfold gather in rw append-nil h
  gather-Holds ((m, now) ∷ ms) pending b h = elim (Option-cases (parse_message c m now)) [
    | inl e ↦ rw (gather_skips m now ms b e, e, parsed_of) (gather-Holds ms pending b h)
    | inr (p, e) ↦
        rw
          (
            gather_adds m now ms b p e,
            e,
            parsed_of,
            ← append_assoc pending (p ∷ []) (parsed_of c ms),
          )
          (gather-Holds ms (pending ++ p ∷ []) (add_parsed c p b) (add_parsed-Holds p pending b h))
  ]

-- Everything committed is stored, and its messages are deleted.
pub record IsSettled (start : World) (committed : List Parsed) (w : World) : Type 0 where
  pub stores : Stores start committed w
  pub deleted :
      receipts_of w.delete_calls ≡ receipts_of start.delete_calls ++ map (λ p. p.receipt) committed

-- Everything committed is stored, and of its messages the first ones are deleted, no others.
pub record IsCut (start : World) (committed : List Parsed) (w : World) : Type 0 where
  pub stores : Stores start committed w
  pub undeleted : List String
  pub deleted :
      receipts_of w.delete_calls ++ undeleted
      ≡ receipts_of start.delete_calls ++ map (λ p. p.receipt) committed
