-- ===== src/Dashboard/Pages/Saved.antt =====
-- The reports that the security agent saves, as the dashboard lists and opens them.
use jim_tf.Base.{
  ℕ, zero, suc, ◌+◌, ◌≤◌, ◌<◌, ◌≡◌, refl, sym, ap, ◌∙◌, inl, inr, String, some, true, false, nat_eq,
  List, [], ◌∷◌, ◌++◌, map, append-nil, append_assoc, map-append, contains, contains-append,
  string_key, ◌==◌, if◌then◌else◌, Bool-cases, arith,
}
use jim_tf.Base.Int.{pos}
use Prim.Native.Nat.{Ordering}
use Prim.Native.String.{compare, len, ◌++◌ as ◌then◌}
use mathlib.Core.Path.{subst}
use text.Mathlib.Text.{starts_with}
use text.Mathlib.TextLemmas.{append_assoc as text_assoc}
use text.Mathlib.TextEquality.{eq_iff}
use text.Mathlib.TextPositions.{starts_with-append, len-append}
use jim_tf.Agent.Storage.{report_key}
use jim_tf.Dashboard.{Loaded}
use jim_tf.Dashboard.Pages.{
  Object, ReportMeta, found, Bucket, Config, gives, get_report, insert_report, sort_reports,
  meta_of, metas_of, day_prefix, day_loop, list_reports, report_detail, report_page, is_allowed,
  open_report, handle,
}

abbrev pub keys_of : List ReportMeta → List String
keys_of ms = map (λ (m : ReportMeta). m.key) ms

abbrev pub object_keys : List (List Object) → List String
object_keys [] = []
object_keys (contents ∷ pages) = map (λ (o : Object). o.key) contents ++ object_keys pages

-- S3 lists, over all pages, the keys that start with the prefix among those that it holds.
pub record Holds (s3 : Bucket) (stored : List String) : Type 0 where
  pub pages_of : String → List (List Object)
  pub returns : (prefix : String) → s3.pages prefix ≡ some (pages_of prefix)
  pub lists :
      (prefix key : String)
      → contains stored key ≡ true
      → starts_with key prefix ≡ true
      → contains (object_keys (pages_of prefix)) key ≡ true

insert_keys :
    (m : ReportMeta) (ms : List ReportMeta) (k : String)
    → contains (keys_of (insert_report m ms)) k ≡ contains (keys_of (m ∷ ms)) k
unfolding insert_report
insert_keys m [] k = refl
insert_keys m (n ∷ ns) k = by_order (compare n.last_modified m.last_modified) (insert_keys m ns k)
  where
    by_order :
        (o : Ordering)
        → contains (keys_of (insert_report m ns)) k ≡ contains (keys_of (m ∷ ns)) k
        → contains
            (keys_of (elim o as (λ u. List ReportMeta) [
              | Ordering.gt ↦ n ∷ insert_report m ns
              | _ ↦ m ∷ n ∷ ns
            ]))
            k
          ≡ contains (keys_of (m ∷ n ∷ ns)) k
    by_order Ordering.gt ih = ground (arith, ih)
    by_order Ordering.lt ih = refl
    by_order Ordering.eq ih = refl

sort_keys :
    (ms : List ReportMeta) (k : String)
    → contains (keys_of (sort_reports ms)) k ≡ contains (keys_of ms) k
unfolding sort_reports
sort_keys [] k = refl
sort_keys (m ∷ ms) k = ground (arith, insert_keys m (sort_reports ms) k, sort_keys ms k)

module _ (config : Config) where
  meta_keys :
      (contents : List Object)
      → keys_of (map (meta_of config) contents) ≡ map (λ (o : Object). o.key) contents
  unfolding meta_of
  meta_keys [] = refl
  meta_keys (o ∷ contents) = ap (λ ks. o.key ∷ ks) (meta_keys contents)

  metas_keys : (pages : List (List Object)) → keys_of (metas_of config pages) ≡ object_keys pages
  unfolding metas_of
  metas_keys [] = refl
  metas_keys (contents ∷ pages) =
      map-append (λ (m : ReportMeta). m.key) (map (meta_of config) contents) (metas_of config pages)
      ∙ (λ i. meta_keys contents i ++ metas_keys pages i)

  module _ (s3 : Bucket) (stored : List String) (holds : Holds s3 stored) where
    abbrev metas_at : ℕ → List ReportMeta
    metas_at i = metas_of config (holds.pages_of (day_prefix config i))

    day_loop_lem :
        (left i : ℕ) (reports : List ReportMeta)
        → (ms : List ReportMeta) × (day_loop config s3 left i reports ≡ some (reports ++ ms))
          × ((d : ℕ) (k : String)
              → i ≤ d
              → d < i + left
              → contains (keys_of (metas_at d)) k ≡ true
              → contains (keys_of ms) k ≡ true)
    unfolding day_loop
    day_loop_lem zero i reports =
        ([], ap some (sym (append-nil reports)), λ d k le lt h. absurd (omega arith))
    day_loop_lem (suc left) i reports =
        let rest = day_loop_lem left (i + 1) (reports ++ metas_at i) in
        (
          metas_at i ++ rest.0,
          (rw (holds.returns (day_prefix config i), day_loop)
              (rest.1 ∙ ap some (append_assoc reports (metas_at i) rest.0))),
          λ d k le lt h.
              rw
                (
                  map-append (λ (m : ReportMeta). m.key) (metas_at i) rest.0,
                  contains-append (keys_of (metas_at i)) (keys_of rest.0) k,
                )
                (elim (Bool-cases (nat_eq d i)) [
                  | inl e ↦
                      let same : d ≡ i = ground arith in
                      let c : contains (keys_of (metas_at i)) k ≡ true =
                        subst (λ j. contains (keys_of (metas_at j)) k ≡ true) same h in
                      ground (arith, c)
                  | inr e ↦ let c = rest.2 d k (ground arith) (omega arith) h in ground (arith, c)
                ]),
        )

report_key_filled :
    (prefix day time run_id : String) → (report_key prefix day time run_id == "") ≡ false
unfolding report_key
report_key_filled prefix day time run_id =
    elim (Bool-cases (report_key prefix day time run_id == "")) [
      | inr e ↦ e
      | inl e ↦
          let rest = time then ("-" then (run_id then ".json")) in
          let empty : report_key prefix day time run_id ≡ "" =
            (eq_iff (report_key prefix day time run_id) "").0 e in
          let none_left : len (prefix then (day then ("/" then rest))) ≡ 0 = ap len empty in
          absurd (
            omega (
              arith,
              none_left,
              len-append prefix (day then ("/" then rest)),
              len-append day ("/" then rest),
              len-append "/" rest,
            ))
    ]

report_key-day :
    (config : Config) (d : ℕ) (time run_id : String)
    → starts_with
        (report_key config.reports_prefix (config.day_text d) time run_id)
        (day_prefix config d)
      ≡ true
unfolding report_key day_prefix
report_key-day config d time run_id =
    let p = config.reports_prefix in
    let day = config.day_text d in
    let rest = time then ("-" then (run_id then ".json")) in
    subst (λ k. starts_with k (p then (day then "/")) ≡ true)
      (text_assoc p (day then "/") rest ∙ ap (λ t. p then t) (text_assoc day "/" rest))
      (starts_with-append (p then (day then "/")) rest)

report_key-inside :
    (prefix day time run_id : String)
    → starts_with (report_key prefix day time run_id) prefix ≡ true
unfolding report_key
report_key-inside prefix day time run_id =
    starts_with-append prefix (day then ("/" then (time then ("-" then (run_id then ".json")))))

-- A key under the prefix is opened.
opened :
    (config : Config) (s3 : Bucket) (key : String) (r : Loaded)
    → (key == "") ≡ false
    → starts_with key config.reports_prefix ≡ true
    → s3.get_object key ≡ found r
    → handle config s3 (report_detail (some key)) ≡ gives (report_page r key)
unfolding handle
opened config s3 key r filled inside is_found =
    rw (filled, inside, open_report, is_allowed, get_report, is_found) refl

module _ (config : Config) (s3 : Bucket) (stored : List String) (holds : Holds s3 stored) where
  -- The report is listed, and its page is shown.
  abbrev pub IsShown : ℕ → String → Loaded → Type 0
  IsShown days key r =
      (metas : List ReportMeta) × (list_reports config s3 (pos days) ≡ some metas)
      × (contains (keys_of metas) key ≡ true)
      × (handle config s3 (report_detail (some key)) ≡ gives (report_page r key))

  -- A report that the agent has saved under the dashboard's prefix, on a day that is fewer days ago
  -- than the dashboard lists, is listed, and its page is shown, if S3 lists the keys that it holds
  -- and returns the report.
  pub report_key-IsShown :
      (days day_offset : ℕ) (time run_id : String) (r : Loaded)
      → day_offset < days
      → contains stored (report_key config.reports_prefix (config.day_text day_offset) time run_id)
        ≡ true
      → s3.get_object (report_key config.reports_prefix (config.day_text day_offset) time run_id)
        ≡ found r
      → IsShown days (report_key config.reports_prefix (config.day_text day_offset) time run_id) r
  unfolding list_reports handle
  report_key-IsShown days d time run_id r in_range is_stored is_found =
      let key = report_key config.reports_prefix (config.day_text d) time run_id in
      let loop = day_loop_lem config s3 stored holds days 0 [] in
      let under_day : starts_with key (day_prefix config d) ≡ true =
        report_key-day config d time run_id in
      let at_day : contains (keys_of (metas_of config (holds.pages_of (day_prefix config d)))) key
          ≡ true =
        rw (metas_keys config (holds.pages_of (day_prefix config d)))
          (holds.lists (day_prefix config d) key is_stored under_day) in
      (
        sort_reports loop.0,
        (rw (loop.1, list_reports) refl),
        rw (sort_keys loop.0 key) (loop.2 d key (omega arith) (omega arith) at_day),
        opened config s3 key r
            (report_key_filled config.reports_prefix (config.day_text d) time run_id)
            (report_key-inside config.reports_prefix (config.day_text d) time run_id) is_found,
      )
