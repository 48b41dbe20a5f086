-- ===== src/Factor/Members.antt =====
-- Which numbers `do_factor` lists.
use mathlib.Core.List.{reverse, reverse-append}
use native.Mathlib.Nat.{div-eq_of_eq-mul_left, mod-add-div'}
use jim_tf.Base.{
  ℕ, zero, suc, ◌+◌, ◌*◌, ◌/◌, ◌%◌, ◌≤◌, ◌<◌, ◌≡◌, ◌≢◌, ◌↔◌, ◌⊎◌, refl, List, [], ◌∷◌, ◌++◌, ◌||◌,
  true, arith, nat_eq, contains, contains-append, nat_key,
}
use jim_tf.Factor.{Found, factor_step, factor_loop}

-- What the number system says of the root that the loop runs up to.
abbrev pub IsFloorSqrt : ℕ → ℕ → Type 0
IsFloorSqrt r n = (r * r ≤ n) × (n < (r + 1) * (r + 1))

pub cofactor : (n i : ℕ) → n % i ≡ 0 → n / i * i ≡ n
cofactor n i h = omega (arith, mod-add-div' n i)

pub divides_cofactor : (n d q : ℕ) → 0 < q → n ≡ d * q → (n / q ≡ d) × (n % q ≡ 0)
divides_cofactor n d q p h =
    let e : n / q ≡ d = div-eq_of_eq-mul_left p h in
    (e, omega (arith, mod-add-div' n q, let f : n / q * q ≡ d * q = rw e in f))

-- `d` is the cofactor of the divisor `i` exactly when `i` is that of the divisor `d`.
cofactor_swap : (n d i : ℕ) → 0 < d → 0 < i → (n % i ≡ 0) → (n / i ≡ d) → (n % d ≡ 0) × (n / d ≡ i)
cofactor_swap n d i pd pi m q =
    let c : n / i * i ≡ n = cofactor n i m in
    let c' : d * i ≡ n = rw q at c in
    let r : (n / d ≡ i) × (n % d ≡ 0) = divides_cofactor n i d pd (omega arith) in (r.1, r.0)

contains-snoc : (xs : List ℕ) (x d : ℕ) → contains (xs ++ x ∷ []) d ≡ (contains xs d || nat_eq d x)
contains-snoc xs x d = ground (arith, contains-append xs (x ∷ []) d)

contains-reverse : (xs : List ℕ) (d : ℕ) → contains (reverse xs) d ≡ contains xs d
contains-reverse [] d = refl
contains-reverse (x ∷ xs) d =
    rw (reverse-append (x ∷ []) xs)
      (ground (arith, contains-snoc (reverse xs) x d, contains-reverse xs d))

module _ (n d : ℕ) where
  small_step :
      (i : ℕ) (s : Found)
      → (contains (factor_step n i s).small d ≡ true)
        ↔ ((contains s.small d ≡ true) ⊎ ((d ≡ i) × (n % i ≡ 0) × (i ≢ n)))
  unfolding factor_step
  small_step i s = ground (arith, contains-snoc s.small i d)

  large_step :
      (i : ℕ) (s : Found)
      → (contains (factor_step n i s).large d ≡ true)
        ↔ ((contains s.large d ≡ true) ⊎ ((n / i ≡ d) × (n % i ≡ 0) × (d ≢ i) × (d ≢ n)))
  unfolding factor_step
  large_step i s = ground (arith, contains-snoc s.large (n / i) d)

  small_loop :
      (k i : ℕ) (s : Found)
      → (contains (factor_loop n k i s).small d ≡ true)
        ↔ ((contains s.small d ≡ true) ⊎ ((i ≤ d) × (d < i + k) × (n % d ≡ 0) × (d ≢ n)))
  unfolding factor_loop
  small_loop zero i s = ground arith
  small_loop (suc k) i s = ground (arith, small_step i s, small_loop k (i + 1) (factor_step n i s))

  large_loop :
      (k i : ℕ) (s : Found)
      → 0 < d
      → 0 < i
      → (contains (factor_loop n k i s).large d ≡ true) ↔ (
          (contains s.large d ≡ true)
          ⊎ ((n % d ≡ 0) × (i ≤ n / d) × (n / d < i + k) × (d ≢ n / d) × (d ≢ n)))
  unfolding factor_loop
  large_loop zero i s p q = ground arith
  large_loop (suc k) i s p q = ground (
    arith,
    large_step i s,
    large_loop k (i + 1) (factor_step n i s) p (omega arith),
    cofactor_swap n d i,
    cofactor_swap n i d,
  )

divisor_le : (n d : ℕ) → 0 < n → n % d ≡ 0 → (d ≤ n) × (1 ≤ n / d)
divisor_le n d pn m = let c : n / d * d ≡ n = cofactor n d m in (grind arith, grind arith)

-- A divisor above the root is the cofactor of one below it, and no other.
root_splits :
    (r n d : ℕ)
    → IsFloorSqrt r n
    → 0 < n
    → 0 < d
    → n % d ≡ 0
    → r < d
    → (1 ≤ n / d) × (n / d < 1 + r)
root_splits r n d h pn pd m lt =
    let c : n / d * d ≡ n = cofactor n d m in (grind arith, grind arith)

pub found_members :
    (r n d : ℕ)
    → IsFloorSqrt r n
    → 0 < n
    → 0 < d
    → let s = factor_loop n r 1 (record { small = []; large = [] }) in
      (contains (s.small ++ reverse s.large) d ≡ true) ↔ ((d < n) × (n % d ≡ 0))
found_members r n d h pn pd =
    let s : Found = factor_loop n r 1 (record { small = []; large = [] }) in
    ground (
      arith,
      contains-append s.small (reverse s.large) d,
      contains-reverse s.large d,
      small_loop n d r 1 (record { small = []; large = [] }),
      large_loop n d r 1 (record { small = []; large = [] }) pd (omega arith),
      root_splits r n d h pn pd,
      divisor_le n d pn,
    )
