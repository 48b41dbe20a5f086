-- ===== src/Tests/Storage.antt =====
-- Examples for what the agent and its dashboard keep in S3.
use jim_tf.Base.{
  ℕ, zero, suc, ◌≡◌, ◌↔◌, refl, sym, inl, inr, String, true, none, some, List, [], ◌∷◌, contains,
  string_key, ◌==◌, if◌then◌else◌, arith, All, Bool-cases,
}
use mathlib.Core.Path.{subst}
use text.Mathlib.Text.{starts_with}
use text.Mathlib.TextEquality.{eq_iff}
use jim_tf.Agent.Storage.{Object as LogObject, listed, list_recent_s3_keys, report_key}
use jim_tf.Agent.Storage.Recent.{IsRecent, list_recent_s3_keys-exact}
use jim_tf.Dashboard.{Loaded}
use jim_tf.Dashboard.Pages.{Object, found, no_such_key, Bucket, Config, index, handle}
use jim_tf.Dashboard.Pages.Confined.{ListsByPrefix, guarded, handle-guarded}
use jim_tf.Dashboard.Pages.Saved.{object_keys, Holds, IsShown, report_key-IsShown}

-- An hour has 60 ticks, and there is one hour with objects.
abbrev hour_names : ℕ → String
hour_names zero = "00"
hour_names (suc n) = "later"

abbrev logs_of : String → List (List LogObject)
logs_of p =
    if p == "hubble.flows/later/"
    then (record { key = "a"; last_modified = 70 } ∷ record { key = "b"; last_modified = 110 } ∷ [])
      ∷ []
    else []

list_recent_s3_keys-exact_example :
    (keys : List String) × (list_recent_s3_keys 60 hour_names (λ p. some (logs_of p)) "" 20 120 3
      ≡ listed keys)
    × ((k : String) → (contains keys k ≡ true) ↔ IsRecent 60 hour_names logs_of "" 20 120 k)
list_recent_s3_keys-exact_example =
    list_recent_s3_keys-exact 60 hour_names logs_of "" 20 120 2 (omega arith) (omega arith)
      (omega arith)

abbrev config : Config
config = record {
  reports_prefix = "r/";
  int = λ t. none;
  filename = λ key. key;
  day_text = λ n. "2026/01/01";
  upper = λ t. t;
  severity_rank = [];
}

abbrev stored_key : String
stored_key = "r/2026/01/01/1200-ab.json"

abbrev report : Loaded
report = record { status = some "clean"; flows_analyzed = 4; incidents = []; timestamp = "now" }

abbrev pages_for : String → List (List Object)
pages_for prefix =
    if starts_with stored_key prefix
    then (record { key = stored_key; last_modified = "2026"; size = 9 } ∷ []) ∷ []
    else []

-- A bucket with one report.
abbrev one_report : Bucket
one_report = record {
  pages = λ prefix. some (pages_for prefix);
  get_object = λ key. if key == stored_key then found report else no_such_key;
}

one_report-ListsByPrefix : ListsByPrefix one_report
one_report-ListsByPrefix prefix pages h = elim (Bool-cases (starts_with stored_key prefix)) [
  | inl e ↦ subst IsUnder (let g : pages_for prefix ≡ pages = cc in g) (rw e ((e, tt), tt))
  | inr e ↦ subst IsUnder (let g : pages_for prefix ≡ pages = cc in g) (rw e tt)
]
  where
    IsUnder : List (List Object) → Type 0
    IsUnder ps = All (All (λ (o : Object). starts_with o.key prefix ≡ true)) ps

handle-guarded_example :
    handle config (guarded "r/" one_report) (index none) ≡ handle config one_report (index none)
handle-guarded_example = handle-guarded config one_report one_report-ListsByPrefix (index none)

one_report-Holds : Holds one_report (stored_key ∷ [])
one_report-Holds = record {
  pages_of = pages_for;
  returns = λ prefix. refl;
  lists = λ prefix key h s.
      let same : stored_key ≡ key = sym ((eq_iff key stored_key).0 (ground (arith, h))) in
      let e : starts_with stored_key prefix ≡ true =
        subst (λ k. starts_with k prefix ≡ true) (sym same) s in
      subst (λ k. contains (object_keys (pages_for prefix)) k ≡ true) same (rw e refl);
}

report_key-IsShown_example :
    IsShown config one_report
      (stored_key ∷ [])
      one_report-Holds
      7
      (report_key "r/" "2026/01/01" "1200" "ab")
      report
unfolding report_key
report_key-IsShown_example =
    report_key-IsShown config one_report (stored_key ∷ []) one_report-Holds 7 3 "1200" "ab" report
      (omega arith) refl refl
