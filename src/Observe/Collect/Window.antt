-- ===== src/Observe/Collect/Window.antt =====
-- The history over many rounds.
use jim_tf.Base.{
  ℕ, ◌≤◌, ◌≡◌, refl, sym, ◌∙◌, ap, String, Bool, true, not, List, [], ◌∷◌, ◌++◌, keep, keep-append,
  append_assoc, append-nil, Option-cases, inl, inr, arith, none, some, false, ltb, ◌+◌, ◌*◌,
}
use jim_tf.Observe.{Problem}
use jim_tf.Observe.Collect.{is_suppressed, stamp_problems, is_recent, update_history, collect}

-- A call of `collect_all`: its two clock readings and the problems that the checks found.
pub record Round : Type 0 where
  pub stamped_at : ℕ
  pub now : ℕ
  pub found : List Problem

-- What is recent later was recent before.
recent_before :
    (second t now : ℕ) (p : Problem)
    → t ≤ now
    → is_recent second now p ≡ true
    → is_recent second t p ≡ true
unfolding is_recent
recent_before second t now p l h = elim (Option-cases p.timestamp) [
  | inl e ↦ absurd (ground (arith, e))
  | inr (u, e) ↦ ground (arith, e)
]

keep_twice :
    (second t now : ℕ) (ps : List Problem)
    → t ≤ now
    → keep (is_recent second now) (keep (is_recent second t) ps) ≡ keep (is_recent second now) ps
keep_twice second t now [] l = refl
keep_twice second t now (p ∷ ps) l =
    ground (arith, keep_twice second t now ps l, recent_before second t now p l)

-- The problem has a time, which is less than half an hour before `now`.
abbrev pub within_half_hour : ℕ → ℕ → Problem → Bool
within_half_hour second now p = elim p.timestamp [
  | none ↦ false
  | some t ↦ ltb now (t + 30 * 60 * second)
]

keep-within :
    (second now : ℕ) (ps : List Problem)
    → keep (is_recent second now) ps ≡ keep (within_half_hour second now) ps
unfolding is_recent
keep-within second now [] = refl
keep-within second now (p ∷ ps) = elim (Option-cases p.timestamp) [
  | inl e ↦ rw (e, is_recent) (keep-within second now ps)
  | inr (t, e) ↦ rw (e, is_recent) (ground (arith, keep-within second now ps))
]

module _ (fnmatch : String → String → Bool) (rules : List (String × String)) (second : ℕ) where
  -- The history after the rounds.
  abbrev pub history_after : List Round → List Problem → List Problem
  history_after [] history = history
  history_after (r ∷ rs) history =
      history_after rs (collect fnmatch rules second r.stamped_at r.now r.found history).history

  -- All problems that the rounds have stamped.
  abbrev pub recorded : List Round → List Problem
  recorded [] = []
  recorded (r ∷ rs) =
      stamp_problems r.stamped_at (keep (λ p. not (is_suppressed fnmatch rules p)) r.found)
      ++ recorded rs

  -- The clock does not go back.
  abbrev pub Onward : ℕ → List Round → Type 0
  Onward t [] = Unit
  Onward t (r ∷ rs) = (t ≤ r.now) × Onward r.now rs

  abbrev pub time_after : ℕ → List Round → ℕ
  time_after t [] = t
  time_after t (r ∷ rs) = time_after r.now rs

  one_round :
      (t : ℕ) (r : Round) (old : List Problem)
      → t ≤ r.now
      → (collect fnmatch rules second r.stamped_at r.now r.found
          (keep (is_recent second t) old)).history
        ≡ keep (is_recent second r.now) (
            old
            ++ stamp_problems r.stamped_at
                (keep (λ p. not (is_suppressed fnmatch rules p)) r.found))
  unfolding collect update_history
  one_round t r old l =
      let new =
        stamp_problems r.stamped_at (keep (λ p. not (is_suppressed fnmatch rules p)) r.found) in
      keep-append (is_recent second r.now) (keep (is_recent second t) old) new
      ∙ ap (λ xs. xs ++ keep (is_recent second r.now) new) (keep_twice second t r.now old l)
      ∙ sym (keep-append (is_recent second r.now) old new)

  rounds_keep :
      (t : ℕ) (rounds : List Round) (old : List Problem)
      → Onward t rounds
      → history_after rounds (keep (is_recent second t) old)
        ≡ keep (is_recent second (time_after t rounds)) (old ++ recorded rounds)
  rounds_keep t [] old h = ap (keep (is_recent second t)) (sym (append-nil old))
  rounds_keep t (r ∷ rs) old h =
      let new =
        stamp_problems r.stamped_at (keep (λ p. not (is_suppressed fnmatch rules p)) r.found) in
      ap (history_after rs) (one_round t r old h.0)
      ∙ rounds_keep r.now rs (old ++ new) h.1
      ∙ ap (keep (is_recent second (time_after r.now rs))) (append_assoc old new (recorded rs))

  -- If the clock does not go back, the history after any number of rounds, from an empty one, has
  -- exactly the stamped problems of all rounds whose time is within half an hour of the last round,
  -- in the order in which they were found.
  pub history-IsWindow :
      (rounds : List Round)
      → Onward 0 rounds
      → history_after rounds []
        ≡ keep (within_half_hour second (time_after 0 rounds)) (recorded rounds)
  history-IsWindow rounds h =
      rounds_keep 0 rounds [] h ∙ keep-within second (time_after 0 rounds) (recorded rounds)
