-- ===== src/Persist/Batch/Totals.antt =====
-- The counts of a worker and the totals of the database, against one description: what a list of
-- parsed messages adds up to for a scheme.
use jim_tf.Base.{
  Option-cases, inl, inr, ℕ, ◌+◌, ◌≡◌, refl, String, Option, none, some, List, [], ◌∷◌, ◌++◌, Dict,
  lookup, insert, lookup-insert, Distinct, insert-Distinct, string_key, arith, ◌==◌, if◌then◌else◌,
  min, max, sym, ◌∙◌, ap,
}
use text.Mathlib.TextEquality.{eq_iff}
use jim_tf.Persist.Batch.{Batch, bump, add_to_batches}
use jim_tf.Persist.Parse.{Parsed}
use jim_tf.Persist.Store.{Summary, upsert, upsert_all}

-- Two groups of messages of a scheme together.
abbrev pub merge : Option Summary → Option Summary → Option Summary
merge none b = b
merge (some a) none = some a
merge (some a) (some b) = some (record {
  total_count = a.total_count + b.total_count;
  first_persisted_at_ms = min a.first_persisted_at_ms b.first_persisted_at_ms;
  last_persisted_at_ms = max a.last_persisted_at_ms b.last_persisted_at_ms;
})

pub merge_assoc : (a b c : Option Summary) → merge (merge a b) c ≡ merge a (merge b c)
merge_assoc none b c = refl
merge_assoc (some a) none c = refl
merge_assoc (some a) (some b) none = refl
merge_assoc (some a) (some b) (some c) = ground arith

pub merge-none : (a : Option Summary) → merge a none ≡ a
merge-none none = refl
merge-none (some a) = refl

abbrev pub one : String → String → ℕ → Option Summary
one scheme s ts_ms =
    if scheme == s
    then some
        (record { total_count = 1; first_persisted_at_ms = ts_ms; last_persisted_at_ms = ts_ms })
    else none

-- What the messages say of the scheme `s`: how many there are, and the first and the last time.
abbrev pub tally : String → List Parsed → Option Summary
tally s [] = none
tally s (p ∷ ps) = merge (one p.scheme s p.ts_ms) (tally s ps)

pub tally-append :
    (s : String) (xs ys : List Parsed) → tally s (xs ++ ys) ≡ merge (tally s xs) (tally s ys)
tally-append s [] ys = refl
tally-append s (p ∷ xs) ys =
    ap (merge (one p.scheme s p.ts_ms)) (tally-append s xs ys)
    ∙ sym (merge_assoc (one p.scheme s p.ts_ms) (tally s xs) (tally s ys))

abbrev pub as_summary : Option Batch → Option Summary
as_summary none = none
as_summary (some b) = some (record {
  total_count = b.count;
  first_persisted_at_ms = b.min_ms;
  last_persisted_at_ms = b.max_ms;
})

-- Adding a message changes the batch of its scheme, and no other, by that message.
pub lookup-add_to_batches :
    (k s : String) (ts : ℕ) (d : Dict String Batch)
    → as_summary (lookup s (add_to_batches k ts d)) ≡ merge (as_summary (lookup s d)) (one k s ts)
unfolding add_to_batches bump
lookup-add_to_batches k s ts d = elim (Option-cases (lookup k d)) [
  | inl new ↦
      ground (
        arith,
        new,
        eq_iff k s,
        lookup-insert k s (record { count = 1; min_ms = ts; max_ms = ts }) d,
      )
  | inr (sb, old) ↦ ground (arith, old, eq_iff k s, lookup-insert k s (bump ts sb) d)
]

pub add_to_batches-Distinct :
    (k : String) (ts : ℕ) (d : Dict String Batch) → Distinct d → Distinct (add_to_batches k ts d)
unfolding add_to_batches
add_to_batches-Distinct k ts d h =
    elim (lookup k d)
      as (λ o. Distinct (elim o [
        | none ↦ insert k (record { count = 1; min_ms = ts; max_ms = ts }) d
        | some sb ↦ insert k (bump ts sb) d
      ])) [ none ↦ insert-Distinct k _ d h | some sb ↦ insert-Distinct k _ d h ]

lookup-upsert :
    (k s : String) (b : Batch) (d : Dict String Summary)
    → lookup s (upsert k b d) ≡ merge (lookup s d) (if k == s then as_summary (some b) else none)
unfolding upsert
lookup-upsert k s b d = elim (Option-cases (lookup k d)) [
  | inl new ↦ ground (
    arith,
    new,
    eq_iff k s,
    lookup-insert k s
        (record {
          total_count = b.count;
          first_persisted_at_ms = b.min_ms;
          last_persisted_at_ms = b.max_ms;
        })
        d,
  )
  | inr (old, e) ↦ ground (
    arith,
    e,
    eq_iff k s,
    lookup-insert k s
        (record {
          total_count = old.total_count + b.count;
          first_persisted_at_ms = min old.first_persisted_at_ms b.min_ms;
          last_persisted_at_ms = max old.last_persisted_at_ms b.max_ms;
        })
        d,
  )
]

pub lookup-upsert_all :
    (s : String) (batches : Dict String Batch) (d : Dict String Summary)
    → Distinct batches
    → lookup s (upsert_all batches d) ≡ merge (lookup s d) (as_summary (lookup s batches))
unfolding upsert_all
lookup-upsert_all s [] d h = sym (merge-none (lookup s d))
lookup-upsert_all s ((k, b) ∷ bs) d h =
    rw (lookup-upsert_all s bs (upsert k b d) h.1, lookup-upsert k s b d)
      (merge_assoc (lookup s d) (if k == s then as_summary (some b) else none)
          (as_summary (lookup s bs))
        ∙ ap (merge (lookup s d)) (ground (arith, h.0, eq_iff k s)))
