-- ===== src/Persist/Uuid.antt =====
-- `_uuid7`: the 128-bit identifiers under which rows are stored.
use Prim.Native.Nat.{bit_and, bit_or}
use jim_tf.Base.{ℕ, ◌+◌, ◌-◌, ◌*◌, ◌/◌, ◌%◌, ◌^◌, ◌<◌, ◌≡◌, arith}
use jim_tf.Base.Bits.{bit_or_add, bit_and_mask}

-- `uuid_int`, of the time and the two random fields. `x << k` is `x * 2 ^ k`.
unfoldable pub uuid7 : ℕ → ℕ → ℕ → ℕ
uuid7 timestamp_ms rand_a rand_b =
    let ts = bit_and timestamp_ms (2 ^ 48 - 1) in
    bit_or (bit_or (bit_or (bit_or (ts * 2 ^ 80) (7 * 2 ^ 76)) (rand_a * 2 ^ 64)) (2 * 2 ^ 62))
      rand_b

-- With random fields of 12 and 62 bits the fields do not overlap.
pub uuid7_sum :
    (t a b : ℕ)
    → a < 2 ^ 12
    → b < 2 ^ 62
    → uuid7 t a b ≡ t % 2 ^ 48 * 2 ^ 80 + 7 * 2 ^ 76 + a * 2 ^ 64 + 2 * 2 ^ 62 + b
unfolding uuid7
uuid7_sum t a b ha hb = rw (
  bit_and_mask 48 t,
  bit_or_add 80 (t % 2 ^ 48 * 2 ^ 80) (7 * 2 ^ 76) (omega arith) (omega arith),
  bit_or_add 76 (t % 2 ^ 48 * 2 ^ 80 + 7 * 2 ^ 76) (a * 2 ^ 64) (omega arith) (omega arith),
  bit_or_add 64 (t % 2 ^ 48 * 2 ^ 80 + 7 * 2 ^ 76 + a * 2 ^ 64) (2 * 2 ^ 62) (omega arith)
      (omega arith),
  bit_or_add 62 (t % 2 ^ 48 * 2 ^ 80 + 7 * 2 ^ 76 + a * 2 ^ 64 + 2 * 2 ^ 62) b (omega arith)
      (omega arith),
)

-- With random fields of 12 and 62 bits, the identifier is a UUID of version 7: it has 128 bits, the
-- version 7 in bits 76 to 79, the variant 2 in bits 62 and 63, both random fields, and in its top 48
-- bits the time modulo 2^48.
pub uuid7_layout :
    (t a b : ℕ)
    → a < 2 ^ 12
    → b < 2 ^ 62
    → (uuid7 t a b < 2 ^ 128)
      × (uuid7 t a b / 2 ^ 80 ≡ t % 2 ^ 48)
      × (uuid7 t a b / 2 ^ 76 % 16 ≡ 7)
      × (uuid7 t a b / 2 ^ 64 % 2 ^ 12 ≡ a)
      × (uuid7 t a b / 2 ^ 62 % 4 ≡ 2)
      × (uuid7 t a b % 2 ^ 62 ≡ b)
uuid7_layout t a b ha hb = omega (arith, uuid7_sum t a b ha hb)

-- Below the year 10889 (2^48 ms), a later time gives a greater identifier, whatever the random
-- fields.
uuid7_ordered :
    (t t' a a' b b' : ℕ)
    → a < 2 ^ 12
    → a' < 2 ^ 12
    → b < 2 ^ 62
    → b' < 2 ^ 62
    → t < t'
    → t' < 2 ^ 48
    → uuid7 t a b < uuid7 t' a' b'
uuid7_ordered t t' a a' b b' ha ha' hb hb' lt bound =
    omega (arith, uuid7_sum t a b ha hb, uuid7_sum t' a' b' ha' hb')
