-- ===== src/Factor.antt =====
-- `do_factor` of infrastructure/code/process.py.
pub mod Members
pub mod Order
pub mod Divisors
use mathlib.Core.List.{reverse}
use jim_tf.Base.{
  ℕ, zero, suc, ◌+◌, ◌/◌, ◌%◌, ◌≡◌, refl, List, [], ◌∷◌, ◌++◌, ◌||◌, leb, nat_eq, if◌then◌else◌,
}

-- The two lists that the loop fills.
pub record Found : Type 0 where
  pub small : List ℕ
  pub large : List ℕ

-- One round of `for i in range(1, limit + 1)`.
unfoldable pub factor_step : ℕ → ℕ → Found → Found
factor_step in_num i s =
    let other = in_num / i in
    if nat_eq (in_num % i) 0
    then record {
      small = if nat_eq i in_num then s.small else s.small ++ i ∷ [];
      large = if nat_eq other i || nat_eq other in_num then s.large else s.large ++ other ∷ [];
    }
    else s

-- The loop, on the rounds that are left and the next `i`.
unfoldable pub factor_loop : ℕ → ℕ → ℕ → Found → Found
factor_loop in_num zero i s = s
factor_loop in_num (suc k) i s = factor_loop in_num k (i + 1) (factor_step in_num i s)

-- `int_sqrt` stands for `int(in_num ** 0.5)`, which the floating-point library computes.
unfoldable pub do_factor : (ℕ → ℕ) → ℕ → List ℕ
unfolding factor_loop factor_step
do_factor int_sqrt in_num =
    if leb in_num 1
    then []
    else let s = factor_loop in_num (int_sqrt in_num) 1 (record { small = []; large = [] }) in
      s.small ++ reverse s.large
