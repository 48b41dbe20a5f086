-- ===== src/Observe/Logs.antt =====
-- `_analyze_task_logs`: the patterns in the log of a task, against those of its last polls.
pub mod Rolling
pub mod Repeats
pub mod Scan
use jim_tf.Base.{
  ℕ, ◌+◌, ◌-◌, ◌*◌, String, Option, none, some, Bool, true, false, not, ◌&&◌, List, [], ◌∷◌, ◌++◌,
  map, keep, drop, length, Dict, lookup, insert, get_or, contains, ltb, leb, nat_eq, string_key,
  ◌==◌, group, adding, add_all, if◌then◌else◌,
}
use jim_tf.Agent.Detect.{set_add}
use jim_tf.Observe.{Sample, line, volumes}
use jim_tf.Observe.Services.{cut}

-- Python's `str.splitlines` and `str.strip`, `pattern.sub(repl, …)` for each of
-- `_FINGERPRINT_REPLACEMENTS`, and the order in which a set is listed.
pub record Texts : Type 0 where
  pub splitlines : String → List String
  pub strip : String → String
  pub replacements : List (String → String)
  pub set_order : List String → List String

-- BASELINE_WINDOW, and VOLUME_SPIKE_FACTOR as a fraction.
pub record Limits : Type 0 where
  pub window : ℕ
  pub spike_num : ℕ
  pub spike_den : ℕ

pub record Snapshot : Type 0 where
  pub ts : ℕ
  pub line_count : ℕ
  pub fingerprints : List String
  pub freq : Dict String ℕ

-- `_log_baselines`
abbrev pub Baselines : Type 0
Baselines = Dict String (List Snapshot)

pub data Kind : Type 0 where
  new_pattern volume_spike frequency_spike : Kind

pub record Anomaly : Type 0 where
  pub kind : Kind
  pub fingerprint : String
  pub sample : Sample
  pub count : ℕ

pub record Analysis : Type 0 where
  pub line_count : ℕ
  pub unique_patterns : ℕ
  pub known_patterns : ℕ
  pub anomalies : List Anomaly
  pub learning : Bool

-- `xs[-n:]`
unfoldable pub last_of {ℓ} : {A : Type ℓ} → ℕ → List A → List A
last_of n xs = if nat_eq n 0 then xs else drop (length xs - n) xs

abbrev pub keys {ℓ κ} : {K : Type ℓ} {V : Type κ} → Dict K V → List K
keys d = map (λ q. q.0) d

abbrev pub append_line : String → List String → List String
append_line l lines = lines ++ l ∷ []

abbrev pub first_line : List String → String
first_line [] = ""
first_line (l ∷ lines) = l

abbrev pub sum : List ℕ → ℕ
sum [] = 0
sum (n ∷ ns) = n + sum ns

abbrev pub append_count : ℕ → List ℕ → List ℕ
append_count n counts = counts ++ n ∷ []

-- `known_fps`
unfoldable pub known_from : List Snapshot → List String → List String
known_from [] known = known
known_from (snap ∷ history) known = known_from history (add_all set_add snap.fingerprints known)

-- `recent_freq`
unfoldable pub all_counts : List Snapshot → List (String × ℕ)
all_counts [] = []
all_counts (snap ∷ history) = snap.freq ++ all_counts history

unfoldable pub recent_freq : List Snapshot → Dict String (List ℕ)
unfolding all_counts
recent_freq history =
    group [] (adding (λ (q : String × ℕ). some q) append_count) (all_counts history) []

unfoldable pub new_pattern_of : Dict String (List String) → String → Anomaly
unfolding cut
new_pattern_of current fp =
    let lines = get_or (lookup fp current) [] in
    record {
      kind = new_pattern;
      fingerprint = cut 120 fp;
      sample = line (cut 200 (first_line lines));
      count = length lines;
    }

-- The loop of `_fingerprint`.
unfoldable pub substitute_all : List (String → String) → String → String
substitute_all [] fp = fp
substitute_all (sub ∷ subs) fp = substitute_all subs (sub fp)

module _ (py : Texts) where
  -- `_fingerprint`
  unfoldable pub fingerprint : String → String
  unfolding substitute_all
  fingerprint raw = substitute_all py.replacements (py.strip raw)

  -- One round of the loop over the lines: a line that is not empty, under its fingerprint.
  unfoldable pub read_line : String → Option (String × String)
  unfolding fingerprint
  read_line raw_line =
      let stripped = py.strip raw_line in
      if stripped == "" then none else some (fingerprint stripped, stripped)

  -- The lines of the two streams, one after the other.
  unfoldable pub raw_lines : String → String → List String
  raw_lines stderr stdout = py.splitlines stderr ++ py.splitlines stdout

  -- `current_fps`
  unfoldable pub patterns : String → String → Dict String (List String)
  unfolding read_line raw_lines
  patterns stderr stdout = group [] (adding read_line append_line) (raw_lines stderr stdout) []

  unfoldable pub count_lines : String → String → ℕ
  unfolding raw_lines
  count_lines stderr stdout =
      length (keep (λ raw_line. not (py.strip raw_line == "")) (raw_lines stderr stdout))

  -- `set(current_fps.keys()) - known_fps`, in the set's order.
  unfoldable pub unseen : List String → Dict String (List String) → List String
  unseen known current = keep (λ fp. not (contains known fp)) (py.set_order (keys current))

  -- `if known_fps`
  unfoldable pub new_patterns : List String → Dict String (List String) → List Anomaly
  unfolding unseen new_pattern_of
  new_patterns [] current = []
  new_patterns (k ∷ known) current = map (new_pattern_of current) (unseen (k ∷ known) current)

  unfoldable pub snapshot : ℕ → String → String → Snapshot
  unfolding patterns count_lines
  snapshot now stderr stdout = record {
    ts = now;
    line_count = count_lines stderr stdout;
    fingerprints = keys (patterns stderr stdout);
    freq = map (λ q. (q.0, length q.1)) (patterns stderr stdout);
  }

module _ (limits : Limits) where
  -- `avg > 0 and n > avg * VOLUME_SPIKE_FACTOR`, for the average of some counts.
  unfoldable pub spikes : ℕ → List ℕ → Bool
  spikes n counts =
      leb 2 (length counts)
      && ltb 0 (sum counts)
      && ltb (sum counts * limits.spike_num) (n * length counts * limits.spike_den)

  unfoldable pub volume_spikes : ℕ → List ℕ → List Anomaly
  unfolding spikes
  volume_spikes n counts =
      if spikes n counts
      then record {
        kind = volume_spike;
        fingerprint = "";
        sample = volumes n (sum counts) (length counts);
        count = n;
      }
        ∷ []
      else []

  -- The loop over the current patterns of the third rule.
  unfoldable pub frequency_spikes : Dict String (List ℕ) → Dict String (List String) → List Anomaly
  unfolding spikes cut
  frequency_spikes recent [] = []
  frequency_spikes recent ((fp, lines) ∷ current) =
      let rest = frequency_spikes recent current in
      if spikes (length lines) (get_or (lookup fp recent) [])
      then record {
        kind = frequency_spike;
        fingerprint = cut 120 fp;
        sample = line (cut 200 (first_line lines));
        count = length lines;
      }
        ∷ rest
      else rest

  -- `if known_fps and history`; a known pattern is of a poll in the history.
  unfoldable pub frequency_part :
      List String → List Snapshot → Dict String (List String) → List Anomaly
  unfolding recent_freq frequency_spikes
  frequency_part [] history current = []
  frequency_part (k ∷ known) history current = frequency_spikes (recent_freq history) current

  -- The update of the baseline at the end.
  unfoldable pub trim : List Snapshot → List Snapshot
  unfolding last_of
  trim history =
      if ltb limits.window (length history) then last_of limits.window history else history

  unfoldable pub update_baseline : String → Snapshot → Baselines → Baselines
  unfolding trim
  update_baseline task_key snap baselines =
      insert task_key (trim (get_or (lookup task_key baselines) [] ++ snap ∷ [])) baselines

module _ (py : Texts) (limits : Limits) where
  -- `_analyze_task_logs`, at the time `now`.
  unfoldable pub analyze : ℕ → String → String → String → Baselines → Analysis × Baselines
  unfolding known_from new_patterns volume_spikes frequency_part snapshot update_baseline
  analyze now task_key stderr stdout baselines =
      let current = patterns py stderr stdout in
      let line_count = count_lines py stderr stdout in
      let history = get_or (lookup task_key baselines) [] in
      let known = known_from history [] in
      (
        record {
          line_count = line_count;
          unique_patterns = length current;
          known_patterns = length known;
          anomalies =
              new_patterns py known current
              ++ volume_spikes limits line_count (map (λ (s : Snapshot). s.line_count) history)
              ++ frequency_part limits known history current;
          learning = leb (length history + 1) 2;
        },
        update_baseline limits task_key (snapshot py now stderr stdout) baselines,
      )
