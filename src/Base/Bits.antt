-- ===== src/Base/Bits.antt =====
-- `|` and `&` of Python on the bit fields of a number: fields that do not overlap add up, and a mask
-- of ones is a remainder.
use Prim.Native.Nat.{
  ℕ, zero, suc, ◌+◌, ◌-◌, ◌*◌, ◌/◌, ◌%◌, ◌^◌, ◌≤◌, ◌<◌, min, max, bit_and, bit_or, digits,
  bit_and-bitwise, bit_or-bitwise,
}
use mathlib.Core.Path.{◌≡◌, refl, sym, ap, ◌∙◌}
use native.Mathlib.Nat.{
  pow-suc, one-le-pow, div-add-mod', mod-lt, mul-add-mod_self_right, mod-eq_of_lt,
}
use native.Mathlib.Omega.{arith}

-- Any count of digits that is enough gives the same result.
module _ (z : ℕ → ℕ) (f : ℕ → ℕ → ℕ) where
  enough_digits : (k j a b : ℕ) → a ≤ k → a ≤ j → digits z f k a b ≡ digits z f j a b
  enough_digits zero zero a b p q = refl
  enough_digits zero (suc j) zero b p q = refl
  enough_digits zero (suc j) (suc a) b p q = absurd (omega arith)
  enough_digits (suc k) zero zero b p q = refl
  enough_digits (suc k) zero (suc a) b p q = absurd (omega arith)
  enough_digits (suc k) (suc j) zero b p q = refl
  enough_digits (suc k) (suc j) (suc a) b p q =
      omega (arith, enough_digits k j (suc a / 2) (b / 2) (omega arith) (omega arith))

zero-bit_or : (b : ℕ) → bit_or 0 b ≡ b
zero-bit_or b = bit_or-bitwise 0 b

zero-bit_and : (b : ℕ) → bit_and 0 b ≡ 0
zero-bit_and b = bit_and-bitwise 0 b

low_bit_or : (a b : ℕ) → bit_or a b ≡ bit_or (a / 2) (b / 2) * 2 + max (a % 2) (b % 2)
low_bit_or zero b = omega (arith, zero-bit_or b, zero-bit_or (b / 2))
low_bit_or (suc a) b = omega (
  arith,
  bit_or-bitwise (suc a) b,
  bit_or-bitwise (suc a / 2) (b / 2),
  enough_digits (λ b. b) max a (suc a / 2) (suc a / 2) (b / 2) (omega arith) (omega arith),
)

low_bit_and : (a b : ℕ) → bit_and a b ≡ bit_and (a / 2) (b / 2) * 2 + min (a % 2) (b % 2)
low_bit_and zero b = omega (arith, zero-bit_and b, zero-bit_and (b / 2))
low_bit_and (suc a) b = omega (
  arith,
  bit_and-bitwise (suc a) b,
  bit_and-bitwise (suc a / 2) (b / 2),
  enough_digits (λ b. zero) min a (suc a / 2) (suc a / 2) (b / 2) (omega arith) (omega arith),
)

or_zero_below : (k a : ℕ) → a ≤ k → bit_or a 0 ≡ a
or_zero_below k zero h = zero-bit_or 0
or_zero_below zero (suc a) h = absurd (omega arith)
or_zero_below (suc k) (suc a) h =
    omega (arith, low_bit_or (suc a) 0, or_zero_below k (suc a / 2) (omega arith))

and_zero_below : (k a : ℕ) → a ≤ k → bit_and a 0 ≡ 0
and_zero_below k zero h = zero-bit_and 0
and_zero_below zero (suc a) h = absurd (omega arith)
and_zero_below (suc k) (suc a) h =
    omega (arith, low_bit_and (suc a) 0, and_zero_below k (suc a / 2) (omega arith))

-- A field of `k` bits beside what stands above it.
pub bit_or_field : (k x y : ℕ) → y < 2 ^ k → bit_or (x * 2 ^ k) y ≡ x * 2 ^ k + y
bit_or_field zero x y h =
    let e : y ≡ 0 = omega arith in rw e (omega (arith, or_zero_below (x * 1) (x * 1) (omega arith)))
bit_or_field (suc k) x y h = rw (pow-suc 2 k) (
    let half : x * (2 ^ k * 2) / 2 ≡ x * 2 ^ k = omega arith in
    let below : y / 2 < 2 ^ k = omega (arith, pow-suc 2 k) in
    let step : bit_or (x * (2 ^ k * 2)) y
        ≡ bit_or (x * 2 ^ k) (y / 2) * 2 + max (x * (2 ^ k * 2) % 2) (y % 2) =
      rw half at (low_bit_or (x * (2 ^ k * 2)) y) in
    omega (arith, step, bit_or_field k x (y / 2) below))

-- The remainder by an even number, from that of the half.
mod_double : (m x : ℕ) → 0 < m → x % (m * 2) ≡ x / 2 % m * 2 + x % 2
mod_double m x p =
    let q : x / 2 / m * m + x / 2 % m ≡ x / 2 = div-add-mod' (x / 2) m in
    let small : x / 2 % m < m = mod-lt (x / 2) p in
    let e : x / 2 / m * (m * 2) + (x / 2 % m * 2 + x % 2) ≡ x = omega arith in
    let f : (x / 2 / m * (m * 2) + (x / 2 % m * 2 + x % 2)) % (m * 2)
        ≡ (x / 2 % m * 2 + x % 2) % (m * 2) =
      mul-add-mod_self_right _ _ _ in
    let g : (x / 2 % m * 2 + x % 2) % (m * 2) ≡ x / 2 % m * 2 + x % 2 =
      mod-eq_of_lt (omega arith) in
    (ap (λ t. t % (m * 2)) (sym e)) ∙ f ∙ g

pub bit_and_mask : (k x : ℕ) → bit_and x (2 ^ k - 1) ≡ x % 2 ^ k
bit_and_mask zero x = omega (arith, and_zero_below x x (omega arith))
bit_and_mask (suc k) x = rw (pow-suc 2 k) (
    let positive : 1 ≤ 2 ^ k = one-le-pow k 2 (omega arith) in
    let half : (2 ^ k * 2 - 1) / 2 ≡ 2 ^ k - 1 = omega arith in
    let step : bit_and x (2 ^ k * 2 - 1)
        ≡ bit_and (x / 2) (2 ^ k - 1) * 2 + min (x % 2) ((2 ^ k * 2 - 1) % 2) =
      rw half at (low_bit_and x (2 ^ k * 2 - 1)) in
    omega (arith, step, bit_and_mask k (x / 2), mod_double (2 ^ k) x positive))

-- The same for a number whose `k` low bits are clear.
pub bit_or_add : (k x y : ℕ) → x % 2 ^ k ≡ 0 → y < 2 ^ k → bit_or x y ≡ x + y
bit_or_add k x y h p =
    let e : x / 2 ^ k * 2 ^ k ≡ x = omega (arith, div-add-mod' x (2 ^ k)) in
    rw e at (bit_or_field k (x / 2 ^ k) y p)
