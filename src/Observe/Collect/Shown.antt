-- ===== src/Observe/Collect/Shown.antt =====
-- The order of the problems that are shown, and the status that they give.
use jim_tf.Base.{
  ℕ, ◌≤◌, ◌≡◌, refl, ◌∙◌, String, Bool, false, not, ◌||◌, List, [], ◌∷◌, keep, All, nat_eq, leb,
  Bool-cases, Option-cases, inl, inr, arith, if◌then◌else◌,
}
use jim_tf.Observe.{Severity, critical, high, medium, low, info, Problem}
use jim_tf.Observe.Collect.{
  severity_order, is_suppressed, stamp, stamp_problems, insert_by_severity, sort_by_severity,
  Overall, healthy, degraded, down, overall_from, collect,
}

abbrev order : Problem → ℕ
order p = severity_order p.severity

-- The problems of one rank.
abbrev pub of_rank : ℕ → List Problem → List Problem
of_rank n ps = keep (λ p. nat_eq (severity_order p.severity) n) ps

abbrev pub IsOrdered : List Problem → Type 0
IsOrdered [] = Unit
IsOrdered (p ∷ ps) =
    All (λ q. severity_order p.severity ≤ severity_order q.severity) ps × IsOrdered ps

insert-stable :
    (n : ℕ) (p : Problem) (qs : List Problem)
    → of_rank n (insert_by_severity p qs) ≡ of_rank n (p ∷ qs)
unfolding insert_by_severity
insert-stable n p [] = refl
insert-stable n p (q ∷ qs) = ground (arith, insert-stable n p qs)

sort-stable : (n : ℕ) (ps : List Problem) → of_rank n (sort_by_severity ps) ≡ of_rank n ps
unfolding sort_by_severity
sort-stable n [] = refl
sort-stable n (p ∷ ps) = ground (arith, insert-stable n p (sort_by_severity ps), sort-stable n ps)

AtLeast : ℕ → List Problem → Type 0
AtLeast n ps = All (λ q. n ≤ severity_order q.severity) ps

weaken : (m n : ℕ) (ps : List Problem) → m ≤ n → AtLeast n ps → AtLeast m ps
unfolding AtLeast
weaken m n [] l h = tt
weaken m n (p ∷ ps) l h = ((omega (arith, h.0)), weaken m n ps l h.1)

insert-AtLeast :
    (n : ℕ) (p : Problem) (qs : List Problem)
    → n ≤ order p
    → AtLeast n qs
    → AtLeast n (insert_by_severity p qs)
unfolding AtLeast insert_by_severity
insert-AtLeast n p [] l h = (l, tt)
insert-AtLeast n p (q ∷ qs) l h = elim (Bool-cases (leb (order p) (order q))) [
  | inl before ↦ rw before (l, h)
  | inr after ↦ rw after (h.0, insert-AtLeast n p qs l h.1)
]

insert-IsOrdered :
    (p : Problem) (qs : List Problem) → IsOrdered qs → IsOrdered (insert_by_severity p qs)
unfolding insert_by_severity AtLeast
insert-IsOrdered p [] h = (tt, tt)
insert-IsOrdered p (q ∷ qs) h = elim (Bool-cases (leb (order p) (order q))) [
  | inl before ↦ rw before (((ground arith), weaken (order p) (order q) qs (ground arith) h.0), h)
  | inr after ↦
      rw after (insert-AtLeast (order q) p qs (ground arith) h.0, insert-IsOrdered p qs h.1)
]

sort-IsOrdered : (ps : List Problem) → IsOrdered (sort_by_severity ps)
unfolding sort_by_severity
sort-IsOrdered [] = tt
sort-IsOrdered (p ∷ ps) = insert-IsOrdered p (sort_by_severity ps) (sort-IsOrdered ps)

-- Whether a problem has the rank.
abbrev pub has_rank : ℕ → List Problem → Bool
has_rank n [] = false
has_rank n (p ∷ ps) = nat_eq (severity_order p.severity) n || has_rank n ps

has_rank-insert :
    (n : ℕ) (p : Problem) (qs : List Problem)
    → has_rank n (insert_by_severity p qs) ≡ has_rank n (p ∷ qs)
unfolding insert_by_severity
has_rank-insert n p [] = refl
has_rank-insert n p (q ∷ qs) = ground (arith, has_rank-insert n p qs)

has_rank-sort : (n : ℕ) (ps : List Problem) → has_rank n (sort_by_severity ps) ≡ has_rank n ps
unfolding sort_by_severity
has_rank-sort n [] = refl
has_rank-sort n (p ∷ ps) =
    ground (arith, has_rank-insert n p (sort_by_severity ps), has_rank-sort n ps)

-- The status that a list of problems calls for, whatever its order.
abbrev pub worst : Overall → List Problem → Overall
worst otherwise ps = if has_rank 0 ps then down else if has_rank 1 ps then degraded else otherwise

pub overall_from-worst : (o : Overall) (ps : List Problem) → overall_from o ps ≡ worst o ps
unfolding overall_from severity_order
overall_from-worst o [] = refl
overall_from-worst o (p ∷ ps) =
    by_severity p.severity (overall_from-worst o ps) (overall_from-worst degraded ps)
  where
    by_severity :
        (s : Severity)
        → overall_from o ps ≡ worst o ps
        → overall_from degraded ps ≡ worst degraded ps
        → (elim s [
          | critical ↦ down
          | high ↦ overall_from degraded ps
          | medium ↦ overall_from o ps
          | low ↦ overall_from o ps
          | info ↦ overall_from o ps
        ])
          ≡ (if nat_eq (severity_order s) 0 || has_rank 0 ps
              then down
              else if nat_eq (severity_order s) 1 || has_rank 1 ps
              then degraded
              else o)
    by_severity critical a b = refl
    by_severity high a b = ground (arith, b)
    by_severity medium a b = a
    by_severity low a b = a
    by_severity info a b = a

stamp-severity : (now : ℕ) (p : Problem) → (stamp now p).severity ≡ p.severity
unfolding stamp
stamp-severity now p = elim (Option-cases p.timestamp) [ inl e ↦ rw e | inr (t, e) ↦ rw e ]

has_rank-stamp :
    (n now : ℕ) (ps : List Problem) → has_rank n (stamp_problems now ps) ≡ has_rank n ps
unfolding stamp_problems
has_rank-stamp n now [] = refl
has_rank-stamp n now (p ∷ ps) = rw (stamp-severity now p, has_rank-stamp n now ps) refl

-- The status is the worst that the problems call for that no rule suppresses, and the list that is
-- shown has these problems in the order of their severities, those of one severity in the order in
-- which they were found.
pub collect-shown :
    (fnmatch : String → String → Bool) (rules : List (String × String)) (second stamped_at now : ℕ)
    (found history : List Problem)
    → let c = collect fnmatch rules second stamped_at now found history in
      let current = keep (λ p. not (is_suppressed fnmatch rules p)) found in
      (c.overall ≡ worst healthy current)
      × IsOrdered c.problems
      × ((n : ℕ) → of_rank n c.problems ≡ of_rank n (stamp_problems stamped_at current))
unfolding collect
collect-shown fnmatch rules second stamped_at now found history =
    let current = keep (λ p. not (is_suppressed fnmatch rules p)) found in
    let stamped = stamp_problems stamped_at current in
    (
      overall_from-worst healthy (sort_by_severity stamped)
          ∙ same_worst (sort_by_severity stamped) current
              (has_rank-sort 0 stamped ∙ has_rank-stamp 0 stamped_at current)
              (has_rank-sort 1 stamped ∙ has_rank-stamp 1 stamped_at current),
      sort-IsOrdered stamped,
      λ n. sort-stable n stamped,
    )
  where
    same_worst :
        (xs ys : List Problem)
        → has_rank 0 xs ≡ has_rank 0 ys
        → has_rank 1 xs ≡ has_rank 1 ys
        → worst healthy xs ≡ worst healthy ys
    same_worst xs ys e f = rw (e, f)
