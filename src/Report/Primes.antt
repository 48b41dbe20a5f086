-- ===== src/Report/Primes.antt =====
-- Which rows the report shows: those of the prime numbers.
use jim_tf.Base.{
  ℕ, ◌%◌, ◌≤◌, ◌<◌, ◌≡◌, refl, ◌↔◌, ◌⊎◌, inl, inr, List, [], ◌∷◌, arith, true, contains, nat_key,
  length,
}
use native.Mathlib.Decide.{dec_lt}
use native.Mathlib.Nat.{mod-eq_of_lt}
use jim_tf.Factor.{do_factor}
use jim_tf.Factor.Members.{IsFloorSqrt}
use jim_tf.Factor.Order.{Ascends}
use jim_tf.Factor.Divisors.{do_factor-exact}

-- Two or more, with no divisor from 1 up but 1 and itself.
abbrev pub IsPrime : ℕ → Type 0
IsPrime n = (2 ≤ n) × ((d : ℕ) → 1 ≤ d → n % d ≡ 0 → (d ≡ 1) ⊎ (d ≡ n))

one_member : (l : List ℕ) (d : ℕ) → length l ≡ 1 → contains l 1 ≡ true → contains l d ≡ true → d ≡ 1
one_member [] d n one h = absurd (cc)
one_member (x ∷ []) d n one h = ground arith
one_member (x ∷ y ∷ l) d n one h = absurd (omega arith)

one_long :
    (l : List ℕ)
    → Ascends 0 l
    → contains l 1 ≡ true
    → ((d : ℕ) → contains l d ≡ true → d ≡ 1)
    → length l ≡ 1
one_long [] a one only = absurd (cc)
one_long (x ∷ []) a one only = refl
one_long (x ∷ y ∷ l) a one only = absurd (ground (arith, only x, only y))

module _ (int_sqrt : ℕ → ℕ) (n : ℕ) (h : IsFloorSqrt (int_sqrt n) n) where
  short : n < 2 → length (do_factor int_sqrt n) ≡ 0
  unfolding do_factor
  short k = ground arith

  one_divides : 2 ≤ n → contains (do_factor int_sqrt n) 1 ≡ true
  one_divides k = ((do_factor-exact int_sqrt n h).1 1).1 (omega arith, omega arith, omega arith)

  one-IsPrime : length (do_factor int_sqrt n) ≡ 1 → IsPrime n
  one-IsPrime e =
      let two : 2 ≤ n = elim (dec_lt n 2) [
        | yes k ↦ absurd (omega (arith, short k))
        | no k ↦ omega arith
      ] in
      (
        two,
        λ d pos m. elim (dec_lt d n) [
          | yes k ↦ inl (
              one_member (do_factor int_sqrt n) d e (one_divides two)
                (((do_factor-exact int_sqrt n h).1 d).1 (pos, k, m)))
          | no k ↦ elim (dec_lt n d) [
            | yes b ↦ absurd (omega (arith, mod-eq_of_lt b))
            | no b ↦ inr (omega arith)
          ]
        ],
      )

  -- A prime has no other divisor that is listed.
  prime_only : IsPrime n → (d : ℕ) → contains (do_factor int_sqrt n) d ≡ true → d ≡ 1
  prime_only p d c =
      let (pos, lt, m) = ((do_factor-exact int_sqrt n h).1 d).0 c in
      elim (p.1 d pos m) [ inl e ↦ e | inr e ↦ absurd (omega arith) ]

  -- `do_factor` lists one number exactly for the primes.
  pub length-do_factor : (length (do_factor int_sqrt n) ≡ 1) ↔ IsPrime n
  length-do_factor = (
    one-IsPrime,
    λ p.
        one_long (do_factor int_sqrt n) (do_factor-exact int_sqrt n h).0 (one_divides p.0)
          (prime_only p),
  )
