-- ===== src/Base/Text.antt =====
-- Joined texts, and Python's conversions between numbers and texts, as an interface. `int` and
-- `literal_eval` raise where they give `none`; `int` is used on texts of natural numbers only.
use Prim.Native.Nat.{ℕ}
use Prim.Native.String.{String, ◌++◌ as ◌then◌}
use mathlib.Core.Path.{◌≡◌}
use mathlib.Core.Bool.{Bool, true, false}
use mathlib.Core.Option.{Option, some}
use mathlib.Core.List.{List, [], ◌∷◌}
use text.Mathlib.Text.{◌==◌}

pub record Conversions : Type 0 where
  pub int : String → Option ℕ
  pub is_digit : String → Bool
  pub str : ℕ → String
  pub str_list : List ℕ → String
  pub literal_eval : String → Option (List ℕ)

-- `int` reads back what `str` wrote, which is not empty and has digits only.
pub record IsExact (c : Conversions) (n : ℕ) : Type 0 where
  pub int_str : c.int (c.str n) ≡ some n
  pub is_digit_str : c.is_digit (c.str n) ≡ true
  pub str_filled : (c.str n == "") ≡ false

-- `literal_eval` reads back a printed list.
abbrev pub IsExactList : Conversions → List ℕ → Type 0
IsExactList c l = c.literal_eval (c.str_list l) ≡ some l

-- `sep.join(parts)`
abbrev pub join : String → List String → String
join sep [] = ""
join sep (part ∷ []) = part
join sep (part ∷ p ∷ parts) = part then (sep then join sep (p ∷ parts))

-- An f-string.
abbrev pub text_of : List String → String
text_of parts = join "" parts
