-- ===== src/Base/Groups.antt =====
-- A `defaultdict` that a loop fills: what it holds for a key, and the entries that pass a test.
use jim_tf.Base.Tests.{Bool-cases, if◌then◌else◌}
use jim_tf.Base.Keys.{Key, ◌==◌}
use jim_tf.Base.Maps.{Dict, lookup, insert, get_or, lookup-insert, Distinct, insert-Distinct}
use jim_tf.Base.Lists.{keep, keep-map}
use mathlib.Core.Path.{◌≡◌, refl, ap, ◌∙◌}
use mathlib.Core.Logic.{inl, inr}
use mathlib.Core.Bool.{Bool}
use mathlib.Core.Option.{Option, none, some}
use mathlib.Core.List.{List, [], ◌∷◌, map}
use native.Mathlib.Omega.{arith}

module _ {ℓ κ} {K : Type ℓ} {V : Type κ} ⦃e : Key K⦄ (start : V) where
  -- `d[k] = update(d[k])` on a `defaultdict`.
  abbrev pub touch : K → (V → V) → Dict K V → Dict K V
  touch k update d = insert k (update (get_or (lookup k d) start)) d

  -- What such a step does to the value of the key `k`, if there is a step.
  abbrev pub update_at : K → Option (K × (V → V)) → Option V → Option V
  update_at k none old = old
  update_at k (some (j, update)) old = if j == k then some (update (get_or old start)) else old

  pub step_at :
      (k : K) (o : Option (K × (V → V))) (d : Dict K V)
      → lookup k (elim o [ none ↦ d | some (j, update) ↦ touch j update d ])
        ≡ update_at k o (lookup k d)
  step_at k none d = refl
  step_at k (some (j, update)) d =
      ground (arith, e.equal_iff j k, lookup-insert j k (update (get_or (lookup j d) start)) d)

module _ {ℓ κ μ} {F : Type μ} {K : Type ℓ} {V : Type κ} ⦃e : Key K⦄ (start : V) where
  -- `for f in flows`, where `step` says which key an element touches, if any, and how.
  abbrev pub group : (F → Option (K × (V → V))) → List F → Dict K V → Dict K V
  group step [] d = d
  group step (f ∷ fs) d =
      group step fs (elim (step f) [ none ↦ d | some (k, update) ↦ touch start k update d ])

  -- The value of the key `k` alone, over all elements.
  abbrev pub value_at : (F → Option (K × (V → V))) → K → List F → Option V → Option V
  value_at step k [] old = old
  value_at step k (f ∷ fs) old = value_at step k fs (update_at start k (step f) old)

  -- The loop treats every key as if it were alone.
  pub lookup-group :
      (step : F → Option (K × (V → V))) (k : K) (fs : List F) (d : Dict K V)
      → lookup k (group step fs d) ≡ value_at step k fs (lookup k d)
  lookup-group step k [] d = refl
  lookup-group step k (f ∷ fs) d =
      lookup-group step k fs
        (elim (step f) [ none ↦ d | some (j, update) ↦ touch start j update d ])
      ∙ ap (value_at step k fs) (step_at start k (step f) d)

  pub group-Distinct :
      (step : F → Option (K × (V → V))) (fs : List F) (d : Dict K V)
      → Distinct d
      → Distinct (group step fs d)
  group-Distinct step [] d h = h
  group-Distinct step (f ∷ fs) d h =
      group-Distinct step fs
        (elim (step f) [ none ↦ d | some (j, update) ↦ touch start j update d ]) (by_step (step f))
    where
      by_step :
          (o : Option (K × (V → V)))
          → Distinct (elim o [ none ↦ d | some (j, update) ↦ touch start j update d ])
      by_step none = h
      by_step (some (j, update)) = insert-Distinct j (update (get_or (lookup j d) start)) d h

module _ {ℓ κ} {K : Type ℓ} {V : Type κ} ⦃e : Key K⦄ where
  -- The entry of a key, as a list.
  abbrev pub entries_at : (V → Bool) → K → Option V → List (K × V)
  entries_at p k none = []
  entries_at p k (some v) = if p v then (k, v) ∷ [] else []

  nothing_at :
      (p : V → Bool) (k : K) (d : Dict K V)
      → lookup k d ≡ none
      → keep (λ q. q.0 == k) (keep (λ q. p q.1) d) ≡ []
  nothing_at p k [] h = refl
  nothing_at p k ((j, v) ∷ d) h = ground (arith, nothing_at p k d, e.equal_iff j k)

  -- The entries that pass a test, at one key.
  pub keep_at :
      (p : V → Bool) (k : K) (d : Dict K V)
      → Distinct d
      → keep (λ q. q.0 == k) (keep (λ q. p q.1) d) ≡ entries_at p k (lookup k d)
  keep_at p k [] h = refl
  keep_at p k ((j, v) ∷ d) h =
      ground (arith, keep_at p k d h.1, nothing_at p k d, e.equal_iff j k, h.0)

module _ {ℓ κ μ ν} {F : Type μ} {K : Type ℓ} {X : Type ν} {V : Type κ} ⦃e : Key K⦄ where
  -- A loop that reads a key and an item from some elements, and adds the item at the key.
  abbrev pub adding : (F → Option (K × X)) → (X → V → V) → F → Option (K × (V → V))
  adding read add f = elim (read f) [ none ↦ none | some (k, x) ↦ some (k, add x) ]

module _ {ℓ μ ν} {F : Type μ} {K : Type ℓ} {X : Type ν} ⦃e : Key K⦄ where
  -- The items of one key, in order.
  abbrev pub items_at : (F → Option (K × X)) → K → List F → List X
  items_at read k [] = []
  items_at read k (f ∷ fs) =
      let rest = items_at read k fs in
      elim (read f) [ none ↦ rest | some (j, x) ↦ if j == k then x ∷ rest else rest ]

abbrev pub add_all {ν κ} : {X : Type ν} {V : Type κ} → (X → V → V) → List X → V → V
add_all add [] v = v
add_all add (x ∷ xs) v = add_all add xs (add x v)

-- What a key has after its items, `none` if there were none and there was nothing before.
abbrev pub after_items {ν κ} :
    {X : Type ν} {V : Type κ} → (X → V → V) → V → List X → Option V → Option V
after_items add start [] old = old
after_items add start (x ∷ xs) old = some (add_all add xs (add x (get_or old start)))

module _ {ℓ κ μ ν} {F : Type μ} {K : Type ℓ} {X : Type ν} {V : Type κ} ⦃e : Key K⦄
    (read : F → Option (K × X)) (add : X → V → V) (start : V) where
  pub value_at-adding :
      (k : K) (fs : List F) (old : Option V)
      → value_at start (adding read add) k fs old ≡ after_items add start (items_at read k fs) old
  value_at-adding k [] old = refl
  value_at-adding k (f ∷ fs) old = by_read (value_at-adding k fs) (read f)
    where
      kept :
          (v : V)
          → after_items add start (items_at read k fs) (some v)
            ≡ some (add_all add (items_at read k fs) v)
      kept v = by_items (items_at read k fs)
        where
          by_items : (xs : List X) → after_items add start xs (some v) ≡ some (add_all add xs v)
          by_items [] = refl
          by_items (x ∷ xs) = refl

      by_read :
          ((old : Option V)
            → value_at start (adding read add) k fs old
              ≡ after_items add start (items_at read k fs) old)
          → (o : Option (K × X))
          → value_at start
              (adding read add)
              k
              fs
              (update_at start k (elim o [ none ↦ none | some (j, x) ↦ some (j, add x) ]) old)
            ≡ after_items add start
                (elim o [
                  | none ↦ items_at read k fs
                  | some (j, x) ↦ if j == k then x ∷ items_at read k fs else items_at read k fs
                ])
                old
      by_read ih none = ih old
      by_read ih (some (j, x)) = elim (Bool-cases (j == k)) [
        | inl same ↦
            rw same (ih (some (add x (get_or old start))) ∙ kept (add x (get_or old start)))
        | inr other ↦ rw other (ih old)
      ]

  -- What the loop leaves at a key, from an empty `defaultdict`.
  pub lookup-collected :
      (k : K) (fs : List F)
      → lookup k (group start (adding read add) fs [])
        ≡ after_items add start (items_at read k fs) none
  lookup-collected k fs = lookup-group start (adding read add) k fs [] ∙ value_at-adding k fs none

  keep-tests {ρ} :
      {R : Type ρ} (report : K × V → R) (about : K → R → Bool)
      → ((k : K) (q : K × V) → about k (report q) ≡ (q.0 == k))
      → (k : K) (d : Dict K V) → keep (λ q. about k (report q)) d ≡ keep (λ q. q.0 == k) d
  keep-tests report about finds k [] = refl
  keep-tests report about finds k (q ∷ d) =
      ground (arith, finds k q, keep-tests report about finds k d)

  -- The reports made of the entries that pass a test, where `about` finds the reports of a key.
  pub reports_at {ρ} :
      {R : Type ρ} (p : V → Bool) (report : K × V → R) (about : K → R → Bool)
      → ((k : K) (q : K × V) → about k (report q) ≡ (q.0 == k))
      → (k : K) (fs : List F)
      → keep (about k) (map report (keep (λ q. p q.1) (group start (adding read add) fs [])))
        ≡ map report (entries_at p k (after_items add start (items_at read k fs) none))
  reports_at p report about finds k fs =
      let d : Dict K V = group start (adding read add) fs [] in
      keep-map (about k) report (keep (λ q. p q.1) d)
      ∙ ap (map report) (
          keep-tests report about finds k (keep (λ q. p q.1) d)
          ∙ keep_at p k d (group-Distinct start (adding read add) fs [] tt)
          ∙ ap (entries_at p k) (lookup-collected k fs))
