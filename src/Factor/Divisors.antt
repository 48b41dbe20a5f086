-- ===== src/Factor/Divisors.antt =====
-- What `do_factor` returns: the proper divisors, in order.
use jim_tf.Base.{ℕ, ◌%◌, ◌≤◌, ◌<◌, ◌≡◌, ◌↔◌, List, [], ◌∷◌, true, arith, contains, nat_key}
use jim_tf.Factor.{do_factor}
use jim_tf.Factor.Members.{IsFloorSqrt, found_members}
use jim_tf.Factor.Order.{Ascends, found-Ascends}

-- When the limit is the integer square root, `do_factor` lists its numbers in strictly ascending
-- order, from 1 up.
do_factor-Ascends :
    (int_sqrt : ℕ → ℕ) (n : ℕ) → IsFloorSqrt (int_sqrt n) n → Ascends 0 (do_factor int_sqrt n)
unfolding do_factor
do_factor-Ascends int_sqrt n h = ground (arith, found-Ascends n (int_sqrt n) h)

contains_positive : (lo d : ℕ) (l : List ℕ) → Ascends lo l → contains l d ≡ true → lo < d
contains_positive lo d [] a h = absurd (ground arith)
contains_positive lo d (x ∷ l) a h = ground (arith, contains_positive x d l a.1)

-- When the limit is the integer square root, `do_factor` lists exactly the proper divisors of its
-- argument: the numbers from 1 below it that divide it.
do_factor-divisors :
    (int_sqrt : ℕ → ℕ) (n d : ℕ)
    → IsFloorSqrt (int_sqrt n) n
    → (contains (do_factor int_sqrt n) d ≡ true) ↔ ((1 ≤ d) × (d < n) × (n % d ≡ 0))
unfolding do_factor
do_factor-divisors int_sqrt n d h = ground (
  arith,
  contains_positive 0 d (do_factor int_sqrt n) (do_factor-Ascends int_sqrt n h),
  found_members (int_sqrt n) n d h,
)

-- When the limit is the integer square root, `do_factor` lists exactly the proper divisors of its
-- argument, the numbers from 1 below it that divide it, in strictly ascending order.
pub do_factor-exact :
    (int_sqrt : ℕ → ℕ) (n : ℕ)
    → IsFloorSqrt (int_sqrt n) n
    → Ascends 0 (do_factor int_sqrt n)
      × ((d : ℕ) → (contains (do_factor int_sqrt n) d ≡ true) ↔ ((1 ≤ d) × (d < n) × (n % d ≡ 0)))
do_factor-exact int_sqrt n h =
    (do_factor-Ascends int_sqrt n h, λ d. do_factor-divisors int_sqrt n d h)
