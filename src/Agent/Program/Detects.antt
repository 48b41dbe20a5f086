-- ===== src/Agent/Program/Detects.antt =====
-- What a run reports of the flows that it reads.
use jim_tf.Base.{
  ℕ, ◌≤◌, ◌≡◌, refl, ap, ◌∙◌, String, true, some, List, [], ◌∷◌, ◌++◌, length, keep, keep-append,
  leb, ◌≢◌, sym, inl, inr, ◌⊎◌, arith, string_key, pair_key,
}
use jim_tf.Agent.{Flow, Alert, high_drop_rate}
use jim_tf.Agent.Detect.{
  count_reasons, first, detect_drops, detect_unexpected_egress, detect_cross_namespace,
  detect_suspicious_dns, detect_port_scan,
}
use jim_tf.Agent.Exact.{drops_about, was_dropped, detect_drops-exact}
use jim_tf.Agent.Storage.{Reader, listed, list_recent_s3_keys, read_flows_from_s3, read_loop}
use jim_tf.Agent.Report.{Status, clean, alert, Saved, Run, Python, main, Correlated, malformed}
use jim_tf.Agent.Report.Runs.{alerts_of, IsReported, main-IsReported}
use jim_tf.Agent.Program.{correlate_with_llm, ended, Setting, program}

Status-cases : (s : Status) → (s ≡ clean) ⊎ (s ≡ alert)
Status-cases clean = inl refl
Status-cases alert = inr refl

-- The report that a run saves has the status alert, and of its alerts about the dropped flows of a pair
-- the first one is about these.
abbrev pub Reports : String × String → List Flow → Run → Type 0
Reports pair dropped run =
    (saved : Saved) × (more : List Alert) × (run.saved ≡ saved ∷ [])
    × (saved.status ≡ alert)
    × (keep (drops_about pair) saved.raw_alerts
        ≡ high_drop_rate pair.0 pair.1 (length dropped) (count_reasons dropped) (first dropped)
          ∷ more)

module _ (py : Python) (pair : String × String) where
  alerts_of-drops :
      (key : String) (keys : List String) (flows : List Flow)
      → 5 ≤ length (keep (was_dropped pair) flows)
      → let dropped = keep (was_dropped pair) flows in
        (more : List Alert) × (keep (drops_about pair) (alerts_of py (key ∷ keys) flows)
          ≡ high_drop_rate pair.0 pair.1 (length dropped) (count_reasons dropped) (first dropped)
            ∷ more)
  alerts_of-drops key keys flows enough =
      let dropped = keep (was_dropped pair) flows in
      let e : leb 5 (length dropped) ≡ true = ground arith in
      let about = drops_about pair in
      let drops = detect_drops flows in
      let egress = detect_unexpected_egress py.set_order flows in
      let crossing = detect_cross_namespace flows in
      let dns = detect_suspicious_dns py.lower flows in
      let scans = detect_port_scan flows in
      let first = rw e at (detect_drops-exact pair flows) in
      (
        keep about egress ++ keep about crossing ++ keep about dns ++ keep about scans,
        keep-append about (drops ++ egress ++ crossing ++ dns) scans
            ∙ ap (λ l. l ++ keep about scans)
                (keep-append about (drops ++ egress ++ crossing) dns
                  ∙ ap (λ l. l ++ keep about dns)
                      (keep-append about (drops ++ egress) crossing
                        ∙ ap (λ l. l ++ keep about crossing)
                            (keep-append about drops egress
                              ∙ ap (λ l. l ++ keep about egress) first))),
      )

  main-Reports :
      (keys : List String) (flows : List Flow) (correlate : List Alert → Correlated)
      → 5 ≤ length (keep (was_dropped pair) flows)
      → 1 ≤ length keys
      → correlate (alerts_of py keys flows) ≢ malformed
      → (run : Run) × (main py keys flows correlate ≡ some run)
        × Reports pair (keep (was_dropped pair) flows) run
  main-Reports [] flows correlate enough h usable = absurd (omega (arith, h))
  main-Reports (k ∷ ks) flows correlate enough h usable =
      let (more, e) = alerts_of-drops k ks flows enough in
      let (run, returns, r) = main-IsReported py (k ∷ ks) flows correlate usable in
      (
        run,
        returns,
        (r.saved, more, r.once, is_alert run r more e, ap (keep (drops_about pair)) r.found ∙ e),
      )
    where
      is_alert :
          (run : Run) (r : IsReported py (alerts_of py (k ∷ ks) flows) run) (more : List Alert)
          → keep (drops_about pair) (alerts_of py (k ∷ ks) flows)
            ≡ high_drop_rate pair.0 pair.1
                (length (keep (was_dropped pair) flows))
                (count_reasons (keep (was_dropped pair) flows))
                (first (keep (was_dropped pair) flows))
              ∷ more
          → r.saved.status ≡ alert
      is_alert run r more e = elim (Status-cases r.saved.status) [
        | inl c ↦ absurd (
            let n : keep (drops_about pair) (alerts_of py (k ∷ ks) flows) ≡ [] =
              ap (keep (drops_about pair)) (r.clean_iff.0 c) in
            let z = sym n ∙ e in (cc))
        | inr a ↦ a
      ]

some_keys :
    (reader : Reader) (keys : List String) (pair : String × String)
    → 5 ≤ length (keep (was_dropped pair) (read_flows_from_s3 reader keys))
    → 1 ≤ length keys
unfolding read_flows_from_s3 read_loop
some_keys reader [] pair enough = absurd (omega arith)
some_keys reader (k ∷ ks) pair enough = omega arith

-- If S3 lists the keys of the recent logs, at least five flows that are read of these logs go from one
-- workload to another with the verdict DROPPED, and the language model does not answer with JSON of
-- another form than an analysis, then the run saves one report, with the status alert and, first
-- among those about the two workloads' dropped flows, an alert with the number of these flows.
pub program-Reports :
    (s : Setting) (now fuel : ℕ) (keys : List String) (pair : String × String)
    → list_recent_s3_keys s.hour s.hour_text s.list_objects s.prefix s.lookback now fuel
      ≡ listed keys
    → 5 ≤ length (keep (was_dropped pair) (read_flows_from_s3 s.reader keys))
    → correlate_with_llm s.cluster s.model
        (alerts_of s.python keys (read_flows_from_s3 s.reader keys))
      ≢ malformed
    → (run : Run) × (program s now fuel ≡ ended run)
      × Reports pair (keep (was_dropped pair) (read_flows_from_s3 s.reader keys)) run
unfolding program
program-Reports s now fuel keys pair is_listed enough usable =
    let (run, returns, r) =
      main-Reports s.python pair keys (read_flows_from_s3 s.reader keys)
        (correlate_with_llm s.cluster s.model) enough (some_keys s.reader keys pair enough)
        usable in
    (run, (rw (is_listed, program, returns) refl), r)
