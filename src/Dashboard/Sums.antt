-- ===== src/Dashboard/Sums.antt =====
-- The numbers of the statistics agree with the reports and with each other.
use jim_tf.Base.{
  ℕ, zero, suc, ◌+◌, ◌≡◌, refl, ◌∙◌, ap, String, List, [], ◌∷◌, ◌++◌, length, length-append,
  length-keep-le, take, Dict, lookup, insert, get_or, min, arith, Bool-cases, inl, inr, string_key,
  ◌==◌,
}
use jim_tf.Agent.Detect.{text_is}
use jim_tf.Dashboard.{
  Incident, Loaded, Dated, Tally, no_counts, severity_key, incident_loop, report_loop,
  insert_by_rank, sort_by_rank, compute_stats,
}

-- The sum of the counts of all severities.
abbrev pub sum_of : Dict String ℕ → ℕ
sum_of [] = 0
sum_of ((k, n) ∷ d) = n + sum_of d

abbrev pub flows_of : List Loaded → ℕ
flows_of [] = 0
flows_of (r ∷ rs) = r.flows_analyzed + flows_of rs

abbrev pub incidents_of : List Loaded → ℕ
incidents_of [] = 0
incidents_of (r ∷ rs) = length r.incidents + incidents_of rs

sum_of-insert :
    (k : String) (v : ℕ) (d : Dict String ℕ)
    → sum_of (insert k v d) + get_or (lookup k d) 0 ≡ sum_of d + v
sum_of-insert k v [] = omega arith
sum_of-insert k v ((j, n) ∷ d) = elim (Bool-cases (j == k)) [
  | inl same ↦ rw same (omega arith)
  | inr other ↦ rw other (omega (arith, sum_of-insert k v d))
]

sum_of-count :
    (k : String) (d : Dict String ℕ)
    → sum_of (insert k (get_or (lookup k d) 0 + 1) d) ≡ sum_of d + 1
sum_of-count k d = omega (arith, sum_of-insert k (get_or (lookup k d) 0 + 1) d)

length-take : (n : ℕ) (xs : List Dated) → length (take n xs) ≡ min n (length xs)
length-take zero xs = ground arith
length-take (suc n) [] = ground arith
length-take (suc n) (x ∷ xs) = ground (arith, length-take n xs)

module _ (upper : String → String) (severity_rank : Dict String ℕ) where
  incident_sums :
      (timestamp : String) (incs : List Incident) (t : Tally)
      → let u = incident_loop upper severity_rank timestamp incs t in
        (u.total_flows ≡ t.total_flows)
        × (sum_of u.severity_counts ≡ sum_of t.severity_counts + length incs)
        × (length u.all_incidents ≡ length t.all_incidents + length incs)
  unfolding incident_loop
  incident_sums timestamp [] t = (refl, (omega arith), (omega arith))
  incident_sums timestamp (inc ∷ incs) t =
      let sev = severity_key upper severity_rank inc in
      let added : Dated = record { incident = inc; report_timestamp = timestamp } in
      let t' : Tally = record {
        total_flows = t.total_flows;
        severity_counts =
            insert sev (get_or (lookup sev t.severity_counts) 0 + 1) t.severity_counts;
        all_incidents = t.all_incidents ++ added ∷ [];
      } in
      let h = incident_sums timestamp incs t' in
      (
        h.0,
        omega (arith, h.1, sum_of-count sev t.severity_counts),
        omega (arith, h.2, length-append t.all_incidents (added ∷ [])),
      )

  report_sums :
      (reports : List Loaded) (t : Tally)
      → let u = report_loop upper severity_rank reports t in
        (u.total_flows ≡ t.total_flows + flows_of reports)
        × (sum_of u.severity_counts ≡ sum_of t.severity_counts + incidents_of reports)
        × (length u.all_incidents ≡ length t.all_incidents + incidents_of reports)
  unfolding report_loop
  report_sums [] t = ((omega arith), (omega arith), (omega arith))
  report_sums (r ∷ rs) t =
      let t' : Tally = record t { total_flows = t.total_flows + r.flows_analyzed } in
      let a = incident_sums r.timestamp r.incidents t' in
      let h = report_sums rs (incident_loop upper severity_rank r.timestamp r.incidents t') in
      ((omega (arith, a.0, h.0)), (omega (arith, a.1, h.1)), (omega (arith, a.2, h.2)))

  length-insert :
      (i : Dated) (is : List Dated)
      → length (insert_by_rank upper severity_rank i is) ≡ suc (length is)
  unfolding insert_by_rank
  length-insert i [] = refl
  length-insert i (j ∷ js) = ground (arith, length-insert i js)

  length-sort : (is : List Dated) → length (sort_by_rank upper severity_rank is) ≡ length is
  unfolding sort_by_rank
  length-sort [] = refl
  length-sort (i ∷ is) =
      length-insert i (sort_by_rank upper severity_rank is) ∙ ap suc (length-sort is)

  -- The clean and the other runs add up to all runs, the flows are those of all reports, the counts of
  -- the severities add up to the number of all incidents, and of these as many are listed, up to 50.
  pub compute_stats-sums :
      (reports : List Loaded)
      → let s = compute_stats upper severity_rank reports in
        (s.clean_runs + s.alert_runs ≡ length reports)
        × (s.total_flows ≡ flows_of reports)
        × (sum_of s.severity_counts ≡ incidents_of reports)
        × (length s.recent_incidents ≡ min 50 (incidents_of reports))
  unfolding compute_stats
  compute_stats-sums reports =
      let t : Tally = record { total_flows = 0; severity_counts = no_counts; all_incidents = [] } in
      let u = report_loop upper severity_rank reports t in
      let h = report_sums reports t in
      (
        omega (arith, length-keep-le (λ (r : Loaded). text_is "clean" r.status) reports),
        omega (arith, h.0),
        omega (arith, h.1),
        length-take 50 (sort_by_rank upper severity_rank u.all_incidents)
            ∙ ap (min 50) (length-sort u.all_incidents ∙ omega (arith, h.2)),
      )
