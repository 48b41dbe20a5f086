-- ===== src/Tests/Factors.antt =====
-- Examples for `do_factor` and `_uuid7`.
use jim_tf.Base.{
  ℕ, [], ◌∷◌, refl, ◌%◌, ◌≤◌, ◌<◌, ◌^◌, ◌/◌, ◌≡◌, ◌↔◌, contains, nat_key, true, arith,
}
use jim_tf.Factor.{do_factor, factor_loop, factor_step}
use jim_tf.Factor.Order.{Ascends}
use jim_tf.Factor.Divisors.{do_factor-exact}
use jim_tf.Persist.Uuid.{uuid7, uuid7_layout}

do_factor-exact_example :
    Ascends 0 (do_factor (λ n. 6) 36)
    × ((d : ℕ) → (contains (do_factor (λ n. 6) 36) d ≡ true) ↔ ((1 ≤ d) × (d < 36) × (36 % d ≡ 0)))
do_factor-exact_example = do_factor-exact (λ n. 6) 36 (omega arith)

uuid7_layout_example :
    (uuid7 1700000000000 5 9 < 2 ^ 128)
    × (uuid7 1700000000000 5 9 / 2 ^ 80 ≡ 1700000000000 % 2 ^ 48)
    × (uuid7 1700000000000 5 9 / 2 ^ 76 % 16 ≡ 7)
    × (uuid7 1700000000000 5 9 / 2 ^ 64 % 2 ^ 12 ≡ 5)
    × (uuid7 1700000000000 5 9 / 2 ^ 62 % 4 ≡ 2)
    × (uuid7 1700000000000 5 9 % 2 ^ 62 ≡ 9)
uuid7_layout_example = uuid7_layout 1700000000000 5 9 (omega arith) (omega arith)

factor_36 : do_factor (λ n. 6) 36 ≡ 1 ∷ 2 ∷ 3 ∷ 4 ∷ 6 ∷ 9 ∷ 12 ∷ 18 ∷ []
unfolding do_factor factor_loop factor_step
factor_36 = refl
