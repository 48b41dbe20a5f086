-- ===== src/Base/Maps.antt =====
-- A Python `dict` as an association list in insertion order: a key that is there keeps its place.
use mathlib.Core.Path.{◌≡◌, refl, ap}
use mathlib.Core.Logic.{inl, inr}
use mathlib.Core.Bool.{false}
use mathlib.Core.Option.{Option, none, some}
use mathlib.Core.List.Memᴰ
use mathlib.Core.List.{List, [], ◌∷◌, Memᴰ}
use native.Mathlib.Omega.{arith}
use jim_tf.Base.Tests.{Bool-cases, if◌then◌else◌}
use jim_tf.Base.Keys.{Key, ◌==◌}

abbrev pub Dict {ℓ κ} : Type ℓ → Type κ → Type (ℓ ⊔ κ)
Dict K V = List (K × V)

-- `x or d`, for a value that may be missing.
abbrev pub get_or {ℓ} : {A : Type ℓ} → Option A → A → A
get_or none d = d
get_or (some a) d = a

module _ {ℓ κ} {K : Type ℓ} {V : Type κ} ⦃e : Key K⦄ where
  -- `d.get(k)`
  abbrev pub lookup : K → Dict K V → Option V
  lookup k [] = none
  lookup k ((j, v) ∷ d) = if j == k then some v else lookup k d

  -- `d[k] = v`
  abbrev pub insert : K → V → Dict K V → Dict K V
  insert k v [] = (k, v) ∷ []
  insert k v ((j, w) ∷ d) = if j == k then (j, v) ∷ d else (j, w) ∷ insert k v d

  pub lookup-insert :
      (k j : K) (v : V) (d : Dict K V)
      → lookup j (insert k v d) ≡ (if k == j then some v else lookup j d)
  lookup-insert k j v [] = refl
  lookup-insert k j v ((i, w) ∷ d) =
      ground (arith, e.equal_iff k j, e.equal_iff i k, e.equal_iff i j, lookup-insert k j v d)

  -- No key is listed twice.
  abbrev pub Distinct : Dict K V → Type κ
  Distinct [] = Unit
  Distinct ((k, v) ∷ d) = (lookup k d ≡ none) × Distinct d

  lookup-insert_other :
      (k j : K) (v : V) (d : Dict K V)
      → (j == k) ≡ false
      → lookup j d ≡ none
      → lookup j (insert k v d) ≡ none
  lookup-insert_other k j v d ne h =
      ground (arith, lookup-insert k j v d, e.equal_iff j k, e.equal_iff k j)

  pub insert-Distinct : (k : K) (v : V) (d : Dict K V) → Distinct d → Distinct (insert k v d)
  insert-Distinct k v [] h = (refl, tt)
  insert-Distinct k v ((j, w) ∷ d) h = elim (Bool-cases (j == k)) [
    | inl same ↦ rw same h
    | inr other ↦ rw other (lookup-insert_other k j v d other h.0, insert-Distinct k v d h.1)
  ]

  -- Where no key is listed twice, the entries are what `lookup` finds.
  pub lookup-member :
      (k : K) (v : V) (d : Dict K V) → Distinct d → Memᴰ (k, v) d → lookup k d ≡ some v
  lookup-member k v [] h m = absurd (Memᴰ.not-nil m)
  lookup-member k v ((j, w) ∷ d) h m = elim (Memᴰ.cases_cons m) [
    | inl same ↦
        ground (arith, ap (λ (x : K × V). x.0) same, ap (λ (x : K × V). x.1) same, e.equal_iff j k)
    | inr t ↦ ground (arith, lookup-member k v d h.1 t, e.equal_iff j k, h.0)
  ]
