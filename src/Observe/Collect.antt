-- ===== src/Observe/Collect.antt =====
-- `collect_all` from the problems of the checks on: suppression, timestamps, the history of the last
-- half hour, the order of the problems, and the overall status.
pub mod Shown
pub mod Window
use jim_tf.Base.{
  ℕ, ◌+◌, ◌*◌, String, Option, none, some, Bool, true, false, not, ◌||◌, ◌&&◌, List, [], ◌∷◌, ◌++◌,
  map, keep, ltb, leb, string_key, ◌==◌, if◌then◌else◌,
}
use jim_tf.Observe.{Severity, critical, high, medium, low, info, Problem}

-- `severity_order`
unfoldable pub severity_order : Severity → ℕ
severity_order critical = 0
severity_order high = 1
severity_order medium = 2
severity_order low = 3
severity_order info = 4

-- `_is_suppressed` for the rules of the environment; `fnmatch` is of Python's library.
unfoldable pub is_suppressed : (String → String → Bool) → List (String × String) → Problem → Bool
is_suppressed fnmatch [] p = false
is_suppressed fnmatch ((rule_src, rule_pat) ∷ rules) p =
    p.source == rule_src && fnmatch p.component rule_pat || is_suppressed fnmatch rules p

-- `_stamp_problems`
unfoldable pub stamp : ℕ → Problem → Problem
stamp now p = elim p.timestamp [ none ↦ record p { timestamp = some now } | some t ↦ p ]

unfoldable pub stamp_problems : ℕ → List Problem → List Problem
unfolding stamp
stamp_problems now problems = map (stamp now) problems

-- HISTORY_WINDOW_SECONDS
abbrev pub history_window : ℕ → ℕ
history_window second = 1800 * second

-- `timestamp > time.time() - HISTORY_WINDOW_SECONDS`
unfoldable pub is_recent : ℕ → ℕ → Problem → Bool
is_recent second now p = elim p.timestamp [
  | none ↦ false
  | some t ↦ ltb now (t + history_window second)
]

-- `_update_history`; what it returns is a copy of the history after it.
unfoldable pub update_history : ℕ → ℕ → List Problem → List Problem → List Problem
unfolding is_recent
update_history second now new_problems history =
    keep (is_recent second now) (history ++ new_problems)

-- `.sort(key=…)`, which is stable.
unfoldable pub insert_by_severity : Problem → List Problem → List Problem
insert_by_severity p [] = p ∷ []
insert_by_severity p (q ∷ qs) =
    let rest = insert_by_severity p qs in
    if leb (severity_order p.severity) (severity_order q.severity) then p ∷ q ∷ qs else q ∷ rest

unfoldable pub sort_by_severity : List Problem → List Problem
unfolding insert_by_severity
sort_by_severity [] = []
sort_by_severity (p ∷ ps) = insert_by_severity p (sort_by_severity ps)

pub data Overall : Type 0 where
  healthy degraded down : Overall

-- The last loop: it breaks at the first CRITICAL problem. `down` stands for "critical".
unfoldable pub overall_from : Overall → List Problem → Overall
overall_from overall [] = overall
overall_from overall (p ∷ ps) = elim p.severity [
  | critical ↦ down
  | high ↦ overall_from degraded ps
  | medium ↦ overall_from overall ps
  | low ↦ overall_from overall ps
  | info ↦ overall_from overall ps
]

pub record Collected : Type 0 where
  pub problems : List Problem
  pub all_history : List Problem
  pub overall : Overall
  pub history : List Problem

-- `found` is the list of the checks' problems, one after the other; `stamped_at` and `now` are the
-- readings of the two clocks, and `history` is `_problem_history`, before and after.
unfoldable pub collect :
    (String → String → Bool)
    → List (String × String)
    → ℕ
    → ℕ
    → ℕ
    → List Problem
    → List Problem
    → Collected
unfolding stamp_problems update_history sort_by_severity overall_from severity_order
collect fnmatch rules second stamped_at now found history =
    let current =
      stamp_problems stamped_at (keep (λ p. not (is_suppressed fnmatch rules p)) found) in
    let history' = update_history second now current history in
    record {
      problems = sort_by_severity current;
      all_history = sort_by_severity history';
      overall = overall_from healthy (sort_by_severity current);
      history = history';
    }
