-- ===== src/Tests/Unary.antt =====
-- Conversions that read back every number and every list, in unary digits, and an integer square root.
use jim_tf.Base.{
  ℕ, zero, suc, ◌+◌, ◌*◌, ◌≡◌, refl, ap, String, Bool, true, false, not, Option, none, some, List,
  [], ◌∷◌, Conversions, IsExact, IsExactList, leb, nat_eq, arith, if◌then◌else◌, Bool-cases, inl,
  inr,
}
use text.Mathlib.Text.{◌==◌}
use Prim.Native.Char.{code}
use text.Mathlib.TextEquality.{eq_iff}
use jim_tf.Factor.Members.{IsFloorSqrt}

abbrev ones : ℕ → String → String
ones zero rest = String.◌∷◌ "," rest
ones (suc n) rest = String.◌∷◌ "1" (ones n rest)

abbrev printed : List ℕ → String
printed [] = ""
printed (n ∷ ns) = ones n (printed ns)

abbrev more : Option (List ℕ) → Option (List ℕ)
more (some (n ∷ ns)) = some (suc n ∷ ns)
more _ = none

abbrev new : Option (List ℕ) → Option (List ℕ)
new (some ns) = some (0 ∷ ns)
new none = none

abbrev read : String → Option (List ℕ)
read String.[] = some []
read (String.◌∷◌ c s) = let rest = read s in if nat_eq (code c) 44 then new rest else more rest

abbrev only : Option (List ℕ) → Option ℕ
only (some (n ∷ [])) = some n
only _ = none

abbrev pub unary : Conversions
unary = record {
  int = λ t. only (read t);
  is_digit = λ t. not (t == "");
  str = λ n. ones n "";
  str_list = printed;
  literal_eval = read;
}

read-ones :
    (n : ℕ) (rest : String) (ns : List ℕ) → read rest ≡ some ns → read (ones n rest) ≡ some (n ∷ ns)
read-ones zero rest ns e = rw e
read-ones (suc n) rest ns e = rw (read-ones n rest ns e)

abbrev is_empty : String → Bool
is_empty String.[] = true
is_empty (String.◌∷◌ c s) = false

ones_filled : (n : ℕ) → (ones n "" == "") ≡ false
ones_filled zero = refl
ones_filled (suc n) = elim (Bool-cases (ones (suc n) "" == "")) [
  | inl e ↦ absurd (let k : false ≡ true = ap is_empty ((eq_iff (ones (suc n) "") "").0 e) in cc)
  | inr e ↦ e
]

pub unary-IsExact : (n : ℕ) → IsExact unary n
unary-IsExact n = record {
  int_str = rw (read-ones n "" [] refl);
  is_digit_str = rw (ones_filled n);
  str_filled = ones_filled n;
}

pub unary-IsExactList : (l : List ℕ) → IsExactList unary l
unary-IsExactList [] = refl
unary-IsExactList (n ∷ ns) = read-ones n (printed ns) ns (unary-IsExactList ns)

abbrev pub root : ℕ → ℕ
root zero = 0
root (suc n) = let r = root n in if leb ((r + 1) * (r + 1)) (suc n) then r + 1 else r

pub root-IsFloorSqrt : (n : ℕ) → IsFloorSqrt (root n) n
root-IsFloorSqrt zero = omega arith
root-IsFloorSqrt (suc n) = grind (arith, root-IsFloorSqrt n)
