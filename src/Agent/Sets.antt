-- ===== src/Agent/Sets.antt =====
-- A set that is filled by `add`, as the detectors fill theirs.
use jim_tf.Base.{
  Key, ◌||◌, Bool-cases, inl, inr, contains-append, ◌≡◌, refl, false, List, [], ◌∷◌, ◌++◌, contains,
  ◌==◌, string_key, nat_key, pair_key, add_all, arith,
}
use jim_tf.Agent.Detect.{set_add}

-- The elements of a list, each once, as a set that they are added to.
abbrev pub unique : {A : Type 0} ⦃e : Key A⦄ → List A → List A
unique xs = add_all set_add xs []

contains-set_add :
    {A : Type 0} ⦃e : Key A⦄ (x y : A) (s : List A)
    → contains (set_add x s) y ≡ (contains s y || y == x)
contains-set_add ⦃e⦄ x y s = ground (arith, contains-append s (x ∷ []) y, e.equal_iff y x)

pub contains-added :
    {A : Type 0} ⦃e : Key A⦄ (xs s : List A) (y : A)
    → contains (add_all set_add xs s) y ≡ (contains s y || contains xs y)
contains-added [] s y = ground arith
contains-added (x ∷ xs) s y =
    ground (arith, contains-added xs (set_add x s) y, contains-set_add x y s)

-- No element stands in the list again after itself.
abbrev pub NoRepeats : {A : Type 0} ⦃e : Key A⦄ → List A → Type 0
NoRepeats [] = Unit
NoRepeats (x ∷ xs) = (contains xs x ≡ false) × NoRepeats xs

append-NoRepeats :
    {A : Type 0} ⦃e : Key A⦄ (s : List A) (x : A)
    → NoRepeats s
    → contains s x ≡ false
    → NoRepeats (s ++ x ∷ [])
append-NoRepeats [] x h n = (refl, tt)
append-NoRepeats ⦃e⦄ (y ∷ s) x h n = (
  ground (arith, contains-append s (x ∷ []) y, e.equal_iff x y, e.equal_iff y x, h.0),
  append-NoRepeats s x h.1 (ground arith),
)

added-NoRepeats :
    {A : Type 0} ⦃e : Key A⦄ (xs s : List A) → NoRepeats s → NoRepeats (add_all set_add xs s)
added-NoRepeats [] s h = h
added-NoRepeats (x ∷ xs) s h = added-NoRepeats xs (set_add x s) (elim (Bool-cases (contains s x)) [
  | inl old ↦ rw old h
  | inr new ↦ rw new (append-NoRepeats s x h new)
])

-- A set that is filled with the elements of a list has these elements, each once.
pub unique-IsSetOf :
    {A : Type 0} ⦃e : Key A⦄ (xs : List A)
    → NoRepeats (unique xs) × ((y : A) → contains (unique xs) y ≡ contains xs y)
unique-IsSetOf xs = (added-NoRepeats xs [] tt, λ y. contains-added xs [] y)
