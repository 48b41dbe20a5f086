-- ===== src/Sender/Plan.antt =====
-- Which messages are sent: the indices from 0 on, each once, in batches of at most ten.
use jim_tf.Base.{
  ℕ, zero, suc, ◌+◌, ◌-◌, ◌≤◌, ◌≡◌, refl, sym, ap, ◌∙◌, String, List, [], ◌∷◌, ◌++◌, map, length,
  true, ltb, min, Conversions, All, arith, append-nil, append_assoc, map-append, leb, Bool-cases,
  inl, inr,
}
use mathlib.Core.Path.{ap₂}
use jim_tf.Sender.{TestEntry, Draws, build_entries, batches_from}

-- `range(from, from + count)`.
abbrev pub count_from : ℕ → ℕ → List ℕ
count_from from zero = []
count_from from (suc n) = from ∷ count_from (from + 1) n

pub count_from-add : (a m n : ℕ) → count_from a m ++ count_from (a + m) n ≡ count_from a (m + n)
count_from-add a zero n =
    ap₂ count_from (let e : a + 0 ≡ a = omega arith in e) (let e : n ≡ 0 + n = omega arith in e)
count_from-add a (suc m) n =
    let e : a + suc m ≡ a + 1 + m = omega arith in
    let f : suc m + n ≡ suc (m + n) = omega arith in
    rw (e, f) (ap (◌∷◌ a) (count_from-add (a + 1) m n))

-- The next ten of `n` and the others.
count_from_ten :
    (a n : ℕ) → count_from a (min 10 n) ++ count_from (a + 10) (n - 10) ≡ count_from a n
count_from_ten a n = elim (Bool-cases (leb 10 n)) [
  | inl more ↦
      let e : min 10 n ≡ 10 = ground arith in
      let f : 10 + (n - 10) ≡ n = ground arith in
      rw e (count_from-add a 10 (n - 10) ∙ ap (count_from a) f)
  | inr last ↦
      let e : min 10 n ≡ n = ground arith in
      let f : n - 10 ≡ 0 = ground arith in rw (e, f) (append-nil (count_from a n))
]

abbrev pub ids : List (List TestEntry) → List String
ids [] = []
ids (b ∷ bs) = map (λ e. e.id) b ++ ids bs

pub ids-append : (xs ys : List (List TestEntry)) → ids (xs ++ ys) ≡ ids xs ++ ids ys
ids-append [] ys = refl
ids-append (x ∷ xs) ys =
    rw (ids-append xs ys) (sym (append_assoc (map (λ e. e.id) x) (ids xs) (ids ys)))

module _ (c : Conversions) (draws : Draws) where
  ids-build_entries :
      (start n scheme : ℕ)
      → map (λ e. e.id) (build_entries c draws start n scheme) ≡ map c.str (count_from start n)
  unfolding build_entries
  ids-build_entries start zero scheme = refl
  ids-build_entries start (suc n) scheme =
      ap (◌∷◌ (c.str start)) (ids-build_entries (start + 1) n scheme)

  length-build_entries : (start n scheme : ℕ) → length (build_entries c draws start n scheme) ≡ n
  unfolding build_entries
  length-build_entries start zero scheme = refl
  length-build_entries start (suc n) scheme = ap suc (length-build_entries (start + 1) n scheme)

  -- With enough rounds, the batches from `start` hold the indices up to `count`.
  pub ids-batches_from :
      (rounds start count scheme offset : ℕ)
      → count - start ≤ rounds
      → ids (batches_from c draws rounds start count scheme offset)
        ≡ map c.str (count_from (offset + start) (count - start))
  unfolding batches_from
  ids-batches_from zero start count scheme offset h =
      let e : count - start ≡ 0 = omega arith in rw e
  ids-batches_from (suc rounds) start count scheme offset h = elim (Bool-cases (ltb start count)) [
    | inr last ↦ let e : count - start ≡ 0 = ground arith in rw (last, e)
    | inl more ↦
        let left : count - (start + 10) ≡ count - start - 10 = omega arith in
        let next : offset + (start + 10) ≡ offset + start + 10 = omega arith in
        rw
          (
            more,
            ids-build_entries (offset + start) (min 10 (count - start)) scheme,
            ids-batches_from rounds (start + 10) count scheme offset (ground arith),
            left,
            next,
            ← count_from_ten (offset + start) (count - start),
          )
          (sym (
            map-append c.str (count_from (offset + start) (min 10 (count - start)))
              (count_from (offset + start + 10) (count - start - 10))))
  ]

  -- Every batch has from one to ten entries.
  pub batches_from_sizes :
      (rounds start count scheme offset : ℕ)
      → All
          (λ b. (1 ≤ length b) × (length b ≤ 10))
          (batches_from c draws rounds start count scheme offset)
  unfolding batches_from
  batches_from_sizes zero start count scheme offset = tt
  batches_from_sizes (suc rounds) start count scheme offset = elim (Bool-cases (ltb start count)) [
    | inr last ↦ rw last tt
    | inl more ↦ rw more (
      sizes (length-build_entries (offset + start) (min 10 (count - start)) scheme) more,
      batches_from_sizes rounds (start + 10) count scheme offset,
    )
  ]
    where
      sizes :
          length (build_entries c draws (offset + start) (min 10 (count - start)) scheme)
            ≡ min 10 (count - start)
          → ltb start count ≡ true
          → (1 ≤ length (build_entries c draws (offset + start) (min 10 (count - start)) scheme))
            × (length (build_entries c draws (offset + start) (min 10 (count - start)) scheme) ≤ 10)
      sizes e more = ground arith
