-- ===== src/Observe/Logs/Repeats.antt =====
-- A log that does not change has no new patterns.
use jim_tf.Base.{
  ℕ, ◌-◌, ◌≤◌, ◌≡◌, ◌≢◌, refl, ◌∙◌, String, Bool, true, false, not, List, [], ◌∷◌, ◌++◌, map, keep,
  drop, length, length-append, Dict, lookup, lookup-insert, get_or, contains, ltb, string_key,
  eq_refl, Bool-cases, inl, inr, All, All-append, add_all, arith,
}
use jim_tf.Agent.Detect.{set_add}
use jim_tf.Agent.Sets.{contains-added}
use jim_tf.Observe.Logs.{
  Texts, Limits, Snapshot, Baselines, new_pattern, Anomaly, keys, patterns, count_lines, known_from,
  unseen, new_patterns, spikes, volume_spikes, recent_freq, frequency_spikes, frequency_part,
  snapshot, trim, update_baseline, analyze,
}
use jim_tf.Observe.Logs.Rolling.{drop-append, last_of_lem}

-- Listing a set lists its elements.
abbrev pub ListsElements : (List String → List String) → Type 0
ListsElements set_order =
    (xs : List String) (y : String) → contains (set_order xs) y ≡ contains xs y

keep-none :
    (p : String → Bool) (xs : List String)
    → ((y : String) → contains xs y ≡ true → p y ≡ false)
    → keep p xs ≡ []
keep-none p [] h = refl
keep-none p (x ∷ xs) h =
    let e : p x ≡ false = h x (rw (eq_refl x)) in
    rw (e, keep) (keep-none p xs (λ y m. h y (ground arith)))

known_from-last :
    (history : List Snapshot) (s : Snapshot) (known : List String)
    → known_from (history ++ s ∷ []) known
      ≡ add_all set_add s.fingerprints (known_from history known)
unfolding known_from
known_from-last [] s known = refl
known_from-last (t ∷ history) s known =
    known_from-last history s (add_all set_add t.fingerprints known)

abbrev IsNotNew : Anomaly → Type 0
IsNotNew a = a.kind ≢ new_pattern

module _ (limits : Limits) where
  -- Trimming keeps the newest snapshot.
  trim-last :
      (history : List Snapshot) (s : Snapshot)
      → 1 ≤ limits.window
      → (older : List Snapshot) × (trim limits (history ++ s ∷ []) ≡ older ++ s ∷ [])
  trim-last history s w = elim (Bool-cases (ltb limits.window (length (history ++ s ∷ [])))) [
    | inl long ↦
        let n = length (history ++ s ∷ []) - limits.window in
        let le : n ≤ length history = omega (arith, length-append history (s ∷ [])) in
        (
          drop n history,
          (unfold trim in
              rw long
                (last_of_lem limits w (history ++ s ∷ []) ∙ drop-append n history (s ∷ []) le)),
        )
    | inr short ↦ (history, (unfold trim in rw short))
  ]

  volume_spikes-IsNotNew : (n : ℕ) (counts : List ℕ) → All IsNotNew (volume_spikes limits n counts)
  unfolding volume_spikes
  volume_spikes-IsNotNew n counts = elim (Bool-cases (spikes limits n counts)) [
    | inl e ↦ rw e ((λ h. cc), tt)
    | inr e ↦ rw e tt
  ]

  frequency_spikes-IsNotNew :
      (recent : Dict String (List ℕ)) (current : Dict String (List String))
      → All IsNotNew (frequency_spikes limits recent current)
  unfolding frequency_spikes
  frequency_spikes-IsNotNew recent [] = tt
  frequency_spikes-IsNotNew recent ((fp, lines) ∷ current) =
      elim (Bool-cases (spikes limits (length lines) (get_or (lookup fp recent) []))) [
        | inl e ↦ rw e ((λ h. cc), frequency_spikes-IsNotNew recent current)
        | inr e ↦ rw e (frequency_spikes-IsNotNew recent current)
      ]

  frequency_part-IsNotNew :
      (known : List String) (history : List Snapshot) (current : Dict String (List String))
      → All IsNotNew (frequency_part limits known history current)
  unfolding frequency_part
  frequency_part-IsNotNew [] history current = tt
  frequency_part-IsNotNew (k ∷ known) history current =
      frequency_spikes-IsNotNew (recent_freq history) current

module _ (py : Texts) (limits : Limits) where
  -- Where all current patterns are known, none is new.
  new_patterns-none :
      (known : List String) (current : Dict String (List String))
      → ListsElements py.set_order
      → ((y : String) → contains (keys current) y ≡ true → contains known y ≡ true)
      → new_patterns py known current ≡ []
  unfolding new_patterns unseen
  new_patterns-none [] current lists h = refl
  new_patterns-none (k ∷ known) current lists h =
      rw
        (keep-none (λ fp. not (contains (k ∷ known) fp)) (py.set_order (keys current))
          (λ y m. ground (arith, h y, lists (keys current) y)))
        refl

  history-analyze_self :
      (now : ℕ) (task_key stderr stdout : String) (b : Baselines)
      → get_or (lookup task_key (analyze py limits now task_key stderr stdout b).1) []
        ≡ trim limits (get_or (lookup task_key b) [] ++ snapshot py now stderr stdout ∷ [])
  unfolding analyze update_baseline
  history-analyze_self now task_key stderr stdout b = rw (
    lookup-insert task_key task_key
        (trim limits (get_or (lookup task_key b) [] ++ snapshot py now stderr stdout ∷ [])) b,
    eq_refl task_key,
  )

  all_known :
      (history : List Snapshot) (s : Snapshot) (y : String)
      → contains s.fingerprints y ≡ true
      → contains (known_from (history ++ s ∷ []) []) y ≡ true
  all_known history s y m =
      rw (known_from-last history s [])
        (ground (arith, contains-added s.fingerprints (known_from history []) y, m))

  -- With a window of at least one poll, a task whose log is the same at the next poll is not reported
  -- for a new pattern, given that Python lists a set's elements.
  pub analyze_again :
      (now now' : ℕ) (task_key stderr stdout : String) (b : Baselines)
      → 1 ≤ limits.window
      → ListsElements py.set_order
      → All
          (λ a. a.kind ≢ new_pattern)
          (analyze py limits now' task_key stderr stdout
            (analyze py limits now task_key stderr stdout b).1).0.anomalies
  analyze_again now now' task_key stderr stdout b w lists =
      let b' = (analyze py limits now task_key stderr stdout b).1 in
      let history = get_or (lookup task_key b') [] in
      let s = snapshot py now stderr stdout in
      let kept = trim-last limits (get_or (lookup task_key b) []) s w in
      let e : history ≡ kept.0 ++ s ∷ [] =
        history-analyze_self now task_key stderr stdout b ∙ kept.1 in
      let none_new : new_patterns py (known_from history []) (patterns py stderr stdout) ≡ [] =
        new_patterns-none (known_from history []) (patterns py stderr stdout) lists
          (λ y m. rw e (all_known kept.0 s y (unfold snapshot in m))) in
      unfold analyze in not_new history none_new
    where
      not_new :
          (history : List Snapshot)
          → new_patterns py (known_from history []) (patterns py stderr stdout) ≡ []
          → All IsNotNew (
              new_patterns py (known_from history []) (patterns py stderr stdout)
              ++ volume_spikes limits
                  (count_lines py stderr stdout)
                  (map (λ (t : Snapshot). t.line_count) history)
              ++ frequency_part limits (known_from history []) history (patterns py stderr stdout))
      not_new history e = rw e (
          All-append IsNotNew (volume_spikes limits (count_lines py stderr stdout) _)
            (frequency_part limits (known_from history []) history (patterns py stderr stdout))
            (volume_spikes-IsNotNew limits (count_lines py stderr stdout) _)
            (frequency_part-IsNotNew limits (known_from history []) history
              (patterns py stderr stdout)))
