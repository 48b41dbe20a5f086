-- ===== src/Base/Lists.antt =====
-- Lists measured and cut by native numbers, under the library's names, and predicates on lists.
use Prim.Native.Nat.{ℕ, zero, suc, ◌+◌, ◌-◌, ◌≤◌}
use mathlib.Core.Path.{◌≡◌, refl, sym, ap, subst}
use mathlib.Core.Logic.{inl, inr, ◌↔◌}
use mathlib.Core.Bool.{Bool, true, false}
use mathlib.Core.List.Memᴰ
use mathlib.Core.List.{List, [], ◌∷◌, ◌++◌, map, Memᴰ}
use native.Mathlib.Omega.{arith}
use jim_tf.Base.Tests.{Bool-cases}

module _ {ℓ} {A : Type ℓ} where
  abbrev pub length : List A → ℕ
  length [] = 0
  length (x ∷ xs) = suc (length xs)

  -- `xs[:n]`
  abbrev pub take : ℕ → List A → List A
  take zero xs = []
  take (suc n) [] = []
  take (suc n) (x ∷ xs) = x ∷ take n xs

  -- `xs[n:]`
  abbrev pub drop : ℕ → List A → List A
  drop zero xs = xs
  drop (suc n) [] = []
  drop (suc n) (x ∷ xs) = drop n xs

  abbrev pub All {κ} : (A → Type κ) → List A → Type κ
  All P [] = Unit
  All P (x ∷ xs) = P x × All P xs

  -- The elements for which `p` holds, in order: a comprehension with a condition.
  abbrev pub keep : (A → Bool) → List A → List A
  keep p [] = []
  keep p (x ∷ xs) = let rest = keep p xs in elim (p x) [ true ↦ x ∷ rest | false ↦ rest ]

  pub length-append : (xs ys : List A) → length (xs ++ ys) ≡ length xs + length ys
  length-append [] ys = omega arith
  length-append (x ∷ xs) ys = omega (arith, length-append xs ys)

  pub take-append-drop : (n : ℕ) (xs : List A) → take n xs ++ drop n xs ≡ xs
  take-append-drop zero xs = refl
  take-append-drop (suc n) [] = refl
  take-append-drop (suc n) (x ∷ xs) = ap (◌∷◌ x) (take-append-drop n xs)

  pub length-take-le : (n : ℕ) (xs : List A) → length (take n xs) ≤ n
  length-take-le zero xs = omega arith
  length-take-le (suc n) [] = omega arith
  length-take-le (suc n) (x ∷ xs) = omega (arith, length-take-le n xs)

  pub length-drop : (n : ℕ) (xs : List A) → length (drop n xs) ≡ length xs - n
  length-drop zero xs = omega arith
  length-drop (suc n) [] = omega arith
  length-drop (suc n) (x ∷ xs) = omega (arith, length-drop n xs)

  pub All-append {κ} : (P : A → Type κ) (xs ys : List A) → All P xs → All P ys → All P (xs ++ ys)
  All-append P [] ys hx hy = hy
  All-append P (x ∷ xs) ys hx hy = (hx.0, All-append P xs ys hx.1 hy)

  pub All-member {κ} : (P : A → Type κ) {x : A} (xs : List A) → All P xs → Memᴰ x xs → P x
  All-member P [] h m = absurd (Memᴰ.not-nil m)
  All-member P (y ∷ xs) h m = elim (Memᴰ.cases_cons m) [
    | inl e ↦ subst P (sym e) h.0
    | inr t ↦ All-member P xs h.1 t
  ]

  pub All-of_members {κ} : (P : A → Type κ) (xs : List A) → ((x : A) → Memᴰ x xs → P x) → All P xs
  All-of_members P [] f = tt
  All-of_members P (x ∷ xs) f =
      (f x (Memᴰ.head refl), All-of_members P xs (λ y m. f y (Memᴰ.tail m)))

  -- A measure of the elements, added up.
  abbrev pub total : (A → ℕ) → List A → ℕ
  total f [] = 0
  total f (x ∷ xs) = f x + total f xs

  pub total-append : (f : A → ℕ) (xs ys : List A) → total f (xs ++ ys) ≡ total f xs + total f ys
  total-append f [] ys = omega arith
  total-append f (x ∷ xs) ys = omega (arith, total-append f xs ys)

  pub member-le-total : (f : A → ℕ) {x : A} (xs : List A) → Memᴰ x xs → f x ≤ total f xs
  member-le-total f [] m = absurd (Memᴰ.not-nil m)
  member-le-total f (y ∷ xs) m = elim (Memᴰ.cases_cons m) [
    | inl e ↦ rw e (omega arith)
    | inr t ↦ omega (arith, member-le-total f xs t)
  ]

  pub length-keep-le : (p : A → Bool) (xs : List A) → length (keep p xs) ≤ length xs
  length-keep-le p [] = omega arith
  length-keep-le p (x ∷ xs) = ground (arith, length-keep-le p xs)

  pub keep-append : (p : A → Bool) (xs ys : List A) → keep p (xs ++ ys) ≡ keep p xs ++ keep p ys
  keep-append p [] ys = refl
  keep-append p (x ∷ xs) ys = ground (arith, keep-append p xs ys)

pub length-map {ℓ κ} :
    {A : Type ℓ} {B : Type κ} (f : A → B) (xs : List A) → length (map f xs) ≡ length xs
length-map f [] = refl
length-map f (x ∷ xs) = ap suc (length-map f xs)

module _ {ℓ κ} {A : Type ℓ} {B : Type κ} where
  pub keep-map :
      (p : B → Bool) (f : A → B) (xs : List A) → keep p (map f xs) ≡ map f (keep (λ x. p (f x)) xs)
  keep-map p f [] = refl
  keep-map p f (x ∷ xs) = ground (arith, keep-map p f xs)

module _ {ℓ} {A : Type ℓ} where
  -- Tests that agree on the members keep the same elements.
  pub keep-congr : (p q : A → Bool) (xs : List A) → All (λ x. p x ≡ q x) xs → keep p xs ≡ keep q xs
  keep-congr p q [] h = refl
  keep-congr p q (x ∷ xs) h = ground (arith, keep-congr p q xs h.1)

  pub All-keep {κ} : (P : A → Type κ) (p : A → Bool) (xs : List A) → All P xs → All P (keep p xs)
  All-keep P p [] h = h
  All-keep P p (x ∷ xs) h =
      elim (p x) as (λ b. All P (elim b [ true ↦ x ∷ keep p xs | false ↦ keep p xs ])) [
        | true ↦ (h.0, All-keep P p xs h.1)
        | false ↦ All-keep P p xs h.1
      ]

  pub All-map {κ μ} :
      (P : A → Type κ) (Q : A → Type μ) (f : (x : A) → P x → Q x) (xs : List A)
      → All P xs
      → All Q xs
  All-map P Q f [] h = tt
  All-map P Q f (x ∷ xs) h = (f x h.0, All-map P Q f xs h.1)

abbrev pub flat {ℓ} : {A : Type ℓ} → List (List A) → List A
flat [] = []
flat (xs ∷ xss) = xs ++ flat xss

-- The members that `keep` leaves.
pub member-keep {ℓ} :
    {A : Type ℓ} (p : A → Bool) (x : A) (xs : List A)
    → Memᴰ x (keep p xs) ↔ (Memᴰ x xs × (p x ≡ true))
member-keep {A} p x xs = (from xs, λ h. to xs h.0 h.1)
  where
    from : (ys : List A) → Memᴰ x (keep p ys) → Memᴰ x ys × (p x ≡ true)
    from [] m = absurd (Memᴰ.not-nil m)
    from (y ∷ ys) m = elim (Bool-cases (p y)) [
      | inl e ↦ elim (Memᴰ.cases_cons (rw (e, keep) at m)) [
        | inl same ↦ (Memᴰ.head same, rw same e)
        | inr t ↦ let r = from ys t in (Memᴰ.tail r.0, r.1)
      ]
      | inr e ↦ let r = from ys (rw (e, keep) at m) in (Memᴰ.tail r.0, r.1)
    ]

    to : (ys : List A) → Memᴰ x ys → p x ≡ true → Memᴰ x (keep p ys)
    to [] m h = absurd (Memᴰ.not-nil m)
    to (y ∷ ys) m h = elim (Bool-cases (p y)) [
      | inl e ↦ elim (Memᴰ.cases_cons m) [
        | inl same ↦ rw (e, keep) (Memᴰ.head same)
        | inr t ↦ rw (e, keep) (Memᴰ.tail (to ys t h))
      ]
      | inr e ↦ elim (Memᴰ.cases_cons m) [
        | inl same ↦ absurd (cc (ap p same))
        | inr t ↦ rw (e, keep) (to ys t h)
      ]
    ]

pub total-map {ℓ κ} :
    {A : Type ℓ} {B : Type κ} (g : B → ℕ) (f : A → B) (xs : List A)
    → total g (map f xs) ≡ total (λ x. g (f x)) xs
total-map g f [] = refl
total-map g f (x ∷ xs) = omega (arith, total-map g f xs)

pub All-flat {ℓ κ} :
    {A : Type ℓ} (P : A → Type κ) (xss : List (List A)) → All (All P) xss → All P (flat xss)
All-flat P [] h = tt
All-flat P (xs ∷ xss) h = All-append P xs (flat xss) h.0 (All-flat P xss h.1)
