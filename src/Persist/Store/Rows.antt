-- ===== src/Persist/Store/Rows.antt =====
-- What the table of rows holds after an insertion: the first row that came for each identifier.
use jim_tf.Base.{
  ℕ, ◌≡◌, refl, sym, Option, none, some, [], ◌∷◌, ◌++◌, Dict, lookup, lookup-insert, nat_key,
  nat_eq_iff, Option-cases, inl, inr, arith,
}
use jim_tf.Persist.Parse.{RowData}
use jim_tf.Persist.Store.{insert_row, insert_rows}

abbrev pub or_else {ℓ} : {A : Type ℓ} → Option A → Option A → Option A
or_else none b = b
or_else (some a) b = some a

pub or_else_assoc {ℓ} :
    {A : Type ℓ} (a b c : Option A) → or_else (or_else a b) c ≡ or_else a (or_else b c)
or_else_assoc none b c = refl
or_else_assoc (some a) b c = refl

pub or_else-none {ℓ} : {A : Type ℓ} (a : Option A) → or_else a none ≡ a
or_else-none none = refl
or_else-none (some a) = refl

pub lookup-append :
    (q : ℕ) (xs ys : Dict ℕ RowData) → lookup q (xs ++ ys) ≡ or_else (lookup q xs) (lookup q ys)
lookup-append q [] ys = refl
lookup-append q ((k, v) ∷ xs) ys = ground (arith, lookup-append q xs ys)

lookup-insert_row :
    (k q : ℕ) (v : RowData) (d : Dict ℕ RowData)
    → lookup q (insert_row k v d) ≡ or_else (lookup q d) (lookup q ((k, v) ∷ []))
unfolding insert_row
lookup-insert_row k q v d = elim (Option-cases (lookup k d)) [
  | inl new ↦ ground (arith, new, nat_eq_iff k q, lookup-insert k q v d)
  | inr (old, e) ↦ ground (arith, e, nat_eq_iff k q)
]

pub lookup-insert_rows :
    (q : ℕ) (rows d : Dict ℕ RowData)
    → lookup q (insert_rows rows d) ≡ or_else (lookup q d) (lookup q rows)
unfolding insert_rows
lookup-insert_rows q [] d = sym (or_else-none (lookup q d))
lookup-insert_rows q ((k, v) ∷ rows) d =
    ground (arith, lookup-insert_rows q rows (insert_row k v d), lookup-insert_row k q v d)
