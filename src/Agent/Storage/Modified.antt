-- ===== src/Agent/Storage/Modified.antt =====
-- Which keys `list_recent_s3_keys` takes of the objects that are listed under a prefix.
use jim_tf.Base.{
  ℕ, ◌≤◌, ◌≡◌, ◌↔◌, sym, ap, ◌∙◌, refl, ◌||◌, ◌==◌, inl, inr, String, true, List, [], ◌∷◌, ◌++◌,
  append-nil, append_assoc, leb, contains, contains-append, string_key, Bool-cases, arith,
}
use mathlib.Core.Path.{subst}
use mathlib.Core.List.Memᴰ
use text.Mathlib.TextEquality.{eq_iff}
use mathlib.Core.List.{Memᴰ}
use jim_tf.Agent.Storage.{Object, recent_of, recent_keys}

pub recent_keys_lem :
    (start : ℕ) (pages : List (List Object)) (keys : List String)
    → recent_keys start pages keys ≡ keys ++ recent_keys start pages []
unfolding recent_keys
recent_keys_lem start [] keys = sym (append-nil keys)
recent_keys_lem start (contents ∷ pages) keys =
    recent_keys_lem start pages (keys ++ recent_of start contents)
    ∙ append_assoc keys (recent_of start contents) (recent_keys start pages [])
    ∙ ap (λ ks. keys ++ ks) (sym (recent_keys_lem start pages (recent_of start contents)))

pub recent_of_iff :
    (start : ℕ) (k : String) (contents : List Object)
    → (contains (recent_of start contents) k ≡ true)
      ↔ ((o : Object) × Memᴰ o contents × (start ≤ o.last_modified) × (o.key ≡ k))
unfolding recent_of
recent_of_iff start k [] = ((λ h. absurd (cc)), λ (o, m, l, q). absurd (Memᴰ.not-nil m))
recent_of_iff start k (o ∷ os) = elim (Bool-cases (leb start o.last_modified)) [
  | inl e ↦ (
    (λ h. elim (Bool-cases (k == o.key)) [
      | inl same ↦ (o, Memᴰ.head refl, (ground arith), sym ((eq_iff k o.key).0 same))
      | inr other ↦
          let (p, m, l, q) = (recent_of_iff start k os).0 (ground arith) in (p, Memᴰ.tail m, l, q)
    ]),
    λ (p, m, l, q). elim (Memᴰ.cases_cons m) [
      | inl same ↦
          let name : k ≡ o.key = sym q ∙ ap (λ (x : Object). x.key) same in
          let named : (k == o.key) ≡ true = (eq_iff k o.key).1 name in ground (arith, named)
      | inr t ↦ ground (arith, (recent_of_iff start k os).1 (p, t, l, q))
    ],
  )
  | inr e ↦ (
    (λ h. let (p, m, l, q) = (recent_of_iff start k os).0 (ground arith) in (p, Memᴰ.tail m, l, q)),
    λ (p, m, l, q). elim (Memᴰ.cases_cons m) [
      | inl same ↦ absurd (
          let l' : start ≤ o.last_modified =
            subst (λ (x : Object). start ≤ x.last_modified) same l in
          ground (arith, l'))
      | inr t ↦ ground (arith, (recent_of_iff start k os).1 (p, t, l, q))
    ],
  )
]

pub recent_keys_iff :
    (start : ℕ) (k : String) (pages : List (List Object))
    → (contains (recent_keys start pages []) k ≡ true) ↔ (
        (contents : List Object) × (o : Object) × Memᴰ contents pages
        × Memᴰ o contents
        × (start ≤ o.last_modified)
        × (o.key ≡ k))
unfolding recent_keys
recent_keys_iff start k [] = ((λ h. absurd (cc)), λ (p, o, m, m', l, q). absurd (Memᴰ.not-nil m))
recent_keys_iff start k (p ∷ ps) =
    let here = recent_of_iff start k p in
    let later = recent_keys_iff start k ps in
    let split : contains (recent_keys start ps (recent_of start p)) k
        ≡ (contains (recent_of start p) k || contains (recent_keys start ps []) k) =
      ap (λ ks. contains ks k) (recent_keys_lem start ps (recent_of start p))
      ∙ contains-append (recent_of start p) (recent_keys start ps []) k in
    (
      (λ h. elim (Bool-cases (contains (recent_of start p) k)) [
        | inl e ↦ let (o, m, l, u) = here.0 e in (p, o, Memᴰ.head refl, m, l, u)
        | inr e ↦
            let (q, o, m, m', l, u) = later.0 (ground (arith, split, h, e)) in
            (q, o, Memᴰ.tail m, m', l, u)
      ]),
      λ (q, o, m, m', l, u). elim (Memᴰ.cases_cons m) [
        | inl same ↦
            let e = here.1 (o, subst (λ (x : List Object). Memᴰ o x) same m', l, u) in
            ground (arith, split, e)
        | inr t ↦ let e = later.1 (q, o, t, m', l, u) in ground (arith, split, e)
      ],
    )
