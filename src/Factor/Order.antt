-- ===== src/Factor/Order.antt =====
-- The order in which `do_factor` lists the divisors.
use mathlib.Core.List.{reverse, reverse-append}
use native.Mathlib.Nat.{mul-le-mul_left, mul-le-mul_right}
use jim_tf.Base.{
  ℕ, zero, suc, ◌+◌, ◌*◌, ◌/◌, ◌%◌, ◌≤◌, ◌<◌, ◌≡◌, ◌≢◌, List, [], ◌∷◌, ◌++◌, arith, nat_eq, All,
  Bool-cases, inl, inr, ◌||◌,
}
use jim_tf.Factor.{Found, factor_step, factor_loop}
use jim_tf.Factor.Members.{IsFloorSqrt, cofactor}

-- Strictly ascending, and all above `lo`.
abbrev pub Ascends : ℕ → List ℕ → Type 0
Ascends lo [] = Unit
Ascends lo (x ∷ xs) = (lo < x) × Ascends x xs

Ascends-append :
    (lo m : ℕ) (xs ys : List ℕ)
    → lo ≤ m
    → Ascends lo xs
    → All (λ x. x < m + 1) xs
    → Ascends m ys
    → Ascends lo (xs ++ ys)
Ascends-append lo m [] [] le a b c = tt
Ascends-append lo m [] (y ∷ ys) le a b c = (omega arith, c.1)
Ascends-append lo m (x ∷ xs) ys le a b c = (a.0, Ascends-append x m xs ys (omega arith) a.1 b.1 c)

Ascends-snoc :
    (lo i : ℕ) (xs : List ℕ)
    → lo < i
    → Ascends lo xs
    → All (λ x. x < i) xs
    → Ascends lo (xs ++ i ∷ [])
Ascends-snoc lo i [] lt a b = (lt, tt)
Ascends-snoc lo i (x ∷ xs) lt a b = (a.0, Ascends-snoc x i xs b.0 a.1 b.1)

Ascends-raise : (lo m : ℕ) (xs : List ℕ) → Ascends lo xs → All (λ x. m < x) xs → Ascends m xs
Ascends-raise lo m [] a b = tt
Ascends-raise lo m (x ∷ xs) a b = (b.0, a.1)

All-lt_mono : (i : ℕ) (xs : List ℕ) → All (λ x. x < i) xs → All (λ x. x < i + 1) xs
All-lt_mono i [] h = tt
All-lt_mono i (x ∷ xs) h = (omega arith, All-lt_mono i xs h.1)

All-lt_snoc : (i : ℕ) (xs : List ℕ) → All (λ x. x < i) xs → All (λ x. x < i + 1) (xs ++ i ∷ [])
All-lt_snoc i [] h = (omega arith, tt)
All-lt_snoc i (x ∷ xs) h = (omega arith, All-lt_snoc i xs h.1)

-- What holds of the two lists before the round for `i`, with `r` the limit.
record IsOrdered (n r i : ℕ) (s : Found) : Type 0 where
  ascends : Ascends 0 s.small
  below : All (λ x. x < i) s.small
  above : All (λ x. r < x) (reverse s.large)
  descends : (d : ℕ) → d * i ≤ n → Ascends d (reverse s.large)

-- Two numbers up to `r` with a product of at least `r * r` are equal.
square_bound : (x i r : ℕ) → 0 < i → i ≤ r → x ≤ r → r * r ≤ x * i → x ≡ i
square_bound x i r p le le' h =
    let a : x * i ≤ x * r = mul-le-mul_left x le in
    let b : x * i ≤ r * i = mul-le-mul_right i le' in
    let c : x < r → suc x * r ≤ r * r = λ lt. mul-le-mul_right r lt in
    let d : i < r → r * suc i ≤ r * r = λ lt. mul-le-mul_left r lt in grind arith

module _ (n r : ℕ) (h : IsFloorSqrt r n) (pn : 0 < n) where
  cofactor_above : (i : ℕ) → 0 < i → i ≤ r → n % i ≡ 0 → n / i ≢ i → r < n / i
  cofactor_above i p le m ne =
      let c : n / i * i ≡ n = cofactor n i m in grind (arith, square_bound (n / i) i r p le)

  cofactor_below : (i d : ℕ) → n % i ≡ 0 → d * (i + 1) ≤ n → d < n / i
  cofactor_below i d m le = let c : n / i * i ≡ n = cofactor n i m in grind arith

  snoc_descends :
      (i d : ℕ) (l : List ℕ)
      → n % i ≡ 0
      → ((d : ℕ) → d * i ≤ n → Ascends d (reverse l))
      → d * (i + 1) ≤ n
      → Ascends d (reverse (l ++ n / i ∷ []))
  snoc_descends i d l m desc le =
      rw (reverse-append l (n / i ∷ []))
        (cofactor_below i d m le, desc (n / i) (omega (arith, cofactor n i m)))

  snoc_above :
      (i : ℕ) (l : List ℕ)
      → 0 < i
      → i ≤ r
      → n % i ≡ 0
      → n / i ≢ i
      → All (λ x. r < x) (reverse l)
      → All (λ x. r < x) (reverse (l ++ n / i ∷ []))
  snoc_above i l p le m ne a = rw (reverse-append l (n / i ∷ [])) (cofactor_above i p le m ne, a)

  step_below :
      (i : ℕ) (s : Found)
      → All (λ x. x < i) s.small
      → All (λ x. x < i + 1) (factor_step n i s).small
  unfolding factor_step
  step_below i s b = elim (Bool-cases (nat_eq (n % i) 0)) [
    | inl hit ↦ elim (Bool-cases (nat_eq i n)) [
      | inl last ↦ rw (hit, last) (All-lt_mono i s.small b)
      | inr more ↦ rw (hit, more) (All-lt_snoc i s.small b)
    ]
    | inr miss ↦ rw miss (All-lt_mono i s.small b)
  ]

  -- A property of the reversed list of cofactors survives a round if it survives a new cofactor.
  step_large :
      (P : List ℕ → Type 0) (i : ℕ) (s : Found)
      → P s.large
      → (n % i ≡ 0 → n / i ≢ i → P (s.large ++ n / i ∷ []))
      → P (factor_step n i s).large
  unfolding factor_step
  step_large P i s old new = elim (Bool-cases (nat_eq (n % i) 0)) [
    | inl hit ↦ elim (Bool-cases (nat_eq (n / i) i || nat_eq (n / i) n)) [
      | inl skip ↦ rw (hit, skip) old
      | inr more ↦ rw (hit, more) (new (ground arith) (ground arith))
    ]
    | inr miss ↦ rw miss old
  ]

  -- One round keeps the order.
  factor_step-IsOrdered :
      (i : ℕ) (s : Found)
      → 0 < i
      → i ≤ r
      → IsOrdered n r i s
      → IsOrdered n r (i + 1) (factor_step n i s)
  factor_step-IsOrdered i s p le o = record {
    ascends = unfold factor_step in ground (arith, Ascends-snoc 0 i s.small p);
    below = step_below i s o.below;
    above =
        step_large (λ l. All (λ x. r < x) (reverse l)) i s o.above
          (λ m ne. snoc_above i s.large p le m ne o.above);
    descends = λ d le'.
        step_large (λ l. Ascends d (reverse l)) i s (o.descends d (grind arith))
          (λ m _. snoc_descends i d s.large m o.descends le');
  }

  factor_loop-IsOrdered :
      (k i : ℕ) (s : Found)
      → 0 < i
      → i + k ≡ r + 1
      → IsOrdered n r i s
      → IsOrdered n r (r + 1) (factor_loop n k i s)
  unfolding factor_loop
  factor_loop-IsOrdered zero i s p e o = let e' : i ≡ r + 1 = omega arith in rw (← e') o
  factor_loop-IsOrdered (suc k) i s p e o =
      factor_loop-IsOrdered k (i + 1) (factor_step n i s) (omega arith) (omega arith)
        (factor_step-IsOrdered i s p (omega arith) o)

  pub found-Ascends :
      let s = factor_loop n r 1 (record { small = []; large = [] }) in
      Ascends 0 (s.small ++ reverse s.large)
  found-Ascends =
      let s : Found = factor_loop n r 1 (record { small = []; large = [] }) in
      let o : IsOrdered n r (r + 1) s =
        factor_loop-IsOrdered r 1 (record { small = []; large = [] }) (omega arith) (omega arith)
          (record { ascends = tt; below = tt; above = tt; descends = λ d le. tt }) in
      Ascends-append 0 r s.small (reverse s.large) (omega arith) o.ascends o.below
        (Ascends-raise 0 r (reverse s.large) (o.descends 0 (omega arith)) o.above)
