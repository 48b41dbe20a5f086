-- ===== src/Observe/Logs/Rolling.antt =====
-- The baseline of a task over many polls of many tasks.
use jim_tf.Base.{
  ℕ, zero, suc, ◌+◌, ◌-◌, ◌≤◌, ◌≡◌, refl, sym, ap, ◌∙◌, String, true, false, List, [], ◌∷◌, ◌++◌,
  append_assoc, append-nil, drop, length, length-append, length-drop, lookup, lookup-insert, get_or,
  ltb, nat_eq, string_key, ◌==◌, Bool-cases, inl, inr, arith, if◌then◌else◌,
}
use text.Mathlib.TextEquality.{eq_iff}
use jim_tf.Observe.Logs.{
  Texts, Limits, Snapshot, Baselines, last_of, snapshot, trim, update_baseline, analyze,
}

drop_all : (n : ℕ) (xs : List Snapshot) → n ≡ 0 → drop n xs ≡ xs
drop_all n xs e = rw e

pub drop-append :
    (n : ℕ) (xs ys : List Snapshot) → n ≤ length xs → drop n (xs ++ ys) ≡ drop n xs ++ ys
drop-append zero xs ys h = refl
drop-append (suc n) [] ys h = absurd (omega arith)
drop-append (suc n) (x ∷ xs) ys h = drop-append n xs ys (omega arith)

drop-one-more : (n : ℕ) (xs : List Snapshot) → drop 1 (drop n xs) ≡ drop (suc n) xs
drop-one-more zero xs = refl
drop-one-more (suc n) [] = refl
drop-one-more (suc n) (x ∷ xs) = drop-one-more n xs

module _ (limits : Limits) (some_window : 1 ≤ limits.window) where
  pub last_of_lem :
      (xs : List Snapshot) → last_of limits.window xs ≡ drop (length xs - limits.window) xs
  unfolding last_of
  last_of_lem xs = elim (Bool-cases (nat_eq limits.window 0)) [
    | inl e ↦ absurd (ground arith)
    | inr e ↦ rw e
  ]

  last_of_nothing : last_of {A = Snapshot} limits.window [] ≡ []
  last_of_nothing = last_of_lem [] ∙ drop_all (0 - limits.window) [] (omega arith)

  pub trim_short : (xs : List Snapshot) → length xs ≤ limits.window → trim limits xs ≡ xs
  unfolding trim
  trim_short xs h = let e : ltb limits.window (length xs) ≡ false = ground arith in rw e

  trim_long : (xs : List Snapshot) → length xs ≡ limits.window + 1 → trim limits xs ≡ drop 1 xs
  unfolding trim
  trim_long xs h =
      let e : ltb limits.window (length xs) ≡ true = ground arith in
      let one : length xs - limits.window ≡ 1 = omega (arith, h) in
      rw e (last_of_lem xs ∙ ap (λ n. drop n xs) one)

  -- Trimming after every poll leaves what trimming once at the end would.
  trim-last_of :
      (xs : List Snapshot) (s : Snapshot)
      → trim limits (last_of limits.window xs ++ s ∷ []) ≡ last_of limits.window (xs ++ s ∷ [])
  trim-last_of xs s = elim (Bool-cases (ltb (length xs) limits.window)) [
    | inl short ↦
        let none_left : length xs - limits.window ≡ 0 = ground arith in
        let none_left' : length (xs ++ s ∷ []) - limits.window ≡ 0 =
          ground (arith, length-append xs (s ∷ [])) in
        ap (λ ys. trim limits (ys ++ s ∷ [])) (last_of_lem xs ∙ drop_all _ xs none_left)
        ∙ trim_short (xs ++ s ∷ []) (ground (arith, length-append xs (s ∷ [])))
        ∙ sym (last_of_lem (xs ++ s ∷ []) ∙ drop_all _ (xs ++ s ∷ []) none_left')
    | inr long ↦
        let n = length xs - limits.window in
        let le : n ≤ length xs = omega arith in
        let full : length (drop n xs ++ s ∷ []) ≡ limits.window + 1 =
          ground (arith, length-append (drop n xs) (s ∷ []), length-drop n xs) in
        let next : suc n ≡ length (xs ++ s ∷ []) - limits.window =
          ground (arith, length-append xs (s ∷ [])) in
        ap (λ ys. trim limits (ys ++ s ∷ [])) (last_of_lem xs)
        ∙ trim_long (drop n xs ++ s ∷ []) full
        ∙ ap (drop 1) (sym (drop-append n xs (s ∷ []) le))
        ∙ drop-one-more n (xs ++ s ∷ [])
        ∙ ap (λ k. drop k (xs ++ s ∷ [])) next
        ∙ sym (last_of_lem (xs ++ s ∷ []))
  ]

-- A call of `_analyze_task_logs`.
pub record Call : Type 0 where
  pub now : ℕ
  pub task_key : String
  pub stderr : String
  pub stdout : String

module _ (py : Texts) (limits : Limits) where
  abbrev pub baselines_after : List Call → Baselines → Baselines
  baselines_after [] baselines = baselines
  baselines_after (c ∷ calls) baselines =
      baselines_after calls (analyze py limits c.now c.task_key c.stderr c.stdout baselines).1

  -- The snapshots of all calls for one task.
  abbrev pub snapshots_of : String → List Call → List Snapshot
  snapshots_of k [] = []
  snapshots_of k (c ∷ calls) =
      let rest = snapshots_of k calls in
      if c.task_key == k then snapshot py c.now c.stderr c.stdout ∷ rest else rest

  abbrev history_of : String → Baselines → List Snapshot
  history_of k baselines = get_or (lookup k baselines) []

  history-analyze :
      (k : String) (c : Call) (b : Baselines)
      → history_of k (analyze py limits c.now c.task_key c.stderr c.stdout b).1 ≡ (
          if c.task_key == k
          then trim limits (history_of k b ++ snapshot py c.now c.stderr c.stdout ∷ [])
          else history_of k b)
  unfolding analyze update_baseline
  history-analyze k c b = ground (
    arith,
    eq_iff c.task_key k,
    lookup-insert c.task_key k
        (trim limits (history_of c.task_key b ++ snapshot py c.now c.stderr c.stdout ∷ [])) b,
  )

  module _ (some_window : 1 ≤ limits.window) where
    windows :
        (k : String) (calls : List Call) (b : Baselines) (xs : List Snapshot)
        → history_of k b ≡ last_of limits.window xs
        → history_of k (baselines_after calls b)
          ≡ last_of limits.window (xs ++ snapshots_of k calls)
    windows k [] b xs h = h ∙ ap (last_of limits.window) (sym (append-nil xs))
    windows k (c ∷ calls) b xs h =
        let b' = (analyze py limits c.now c.task_key c.stderr c.stdout b).1 in
        let s = snapshot py c.now c.stderr c.stdout in
        elim (Bool-cases (c.task_key == k)) [
          | inl same ↦
              let e : history_of k b' ≡ last_of limits.window (xs ++ s ∷ []) =
                history-analyze k c b
                ∙ (rw same (
                    ap (λ ys. trim limits (ys ++ s ∷ [])) h
                    ∙ trim-last_of limits some_window xs s)) in
              rw same (
                windows k calls b' (xs ++ s ∷ []) e
                ∙ ap (last_of limits.window) (append_assoc xs (s ∷ []) (snapshots_of k calls)))
          | inr other ↦
              let e : history_of k b' ≡ last_of limits.window xs =
                history-analyze k c b ∙ (rw other h) in
              rw other (windows k calls b' xs e)
        ]

    -- With a window of at least one poll, after any sequence of analyses of any tasks, the baseline
    -- of a task is the last polls of that task, as many as the window has.
    pub baseline-IsWindow :
        (k : String) (calls : List Call)
        → get_or (lookup k (baselines_after calls [])) []
          ≡ last_of limits.window (snapshots_of k calls)
    baseline-IsWindow k calls = windows k calls [] [] (sym (last_of_nothing limits some_window))
