-- ===== src/Dashboard/Pages.antt =====
-- `list_reports`, `get_report` and the pages of infrastructure/security-dashboard/app.py.
pub mod Confined
pub mod Saved
use jim_tf.Base.{
  ℕ, zero, suc, ◌+◌, String, Option, none, some, Bool, true, false, List, [], ◌∷◌, ◌++◌, map, take,
  get_or, Dict, string_key, ◌==◌, if◌then◌else◌,
}
use jim_tf.Base.Int.{ℤ, pos, negsuc}
use Prim.Native.Nat.{Ordering}
use Prim.Native.String.{compare, ◌++◌ as ◌then◌}
use text.Mathlib.Text.{starts_with}
use jim_tf.Dashboard.{Loaded, Stats, compute_stats}

-- An object as S3 lists it, with the text of `LastModified`.
pub record Object : Type 0 where
  pub key : String
  pub last_modified : String
  pub size : ℕ

pub record ReportMeta : Type 0 where
  pub key : String
  pub filename : String
  pub last_modified : String
  pub size : ℕ

-- What `get_object` and `json.loads` give for a key.
pub data Got : Type 0 where
  found : Loaded → Got
  no_such_key fails : Got

-- S3: the pages of a listing, `none` if it raises, and the objects.
pub record Bucket : Type 0 where
  pub pages : String → Option (List (List Object))
  pub get_object : String → Got

-- The settings, `int`, the name after the last "/" of a key, and the texts of today and of the days
-- before it.
pub record Config : Type 0 where
  pub reports_prefix : String
  pub int : String → Option ℤ
  pub filename : String → String
  pub day_text : ℕ → String
  pub upper : String → String
  pub severity_rank : Dict String ℕ

-- How a handler ends: with a value, with `abort`, or with another exception.
pub data Outcome {ℓ} (A : Type ℓ) : Type ℓ where
  gives : A → Outcome A
  aborts : ℕ → Outcome A
  raises : Outcome A

unfoldable pub get_report : Bucket → String → Outcome Loaded
get_report s3 key = elim (s3.get_object key) [
  | found r ↦ gives r
  | no_such_key ↦ aborts 404
  | fails ↦ raises
]

-- `reports.sort(key=lambda r: r["last_modified"], reverse=True)`, which keeps the order of equal ones.
unfoldable pub insert_report : ReportMeta → List ReportMeta → List ReportMeta
insert_report m [] = m ∷ []
insert_report m (n ∷ ns) =
    let rest = insert_report m ns in
    elim (compare n.last_modified m.last_modified) [ Ordering.gt ↦ n ∷ rest | _ ↦ m ∷ n ∷ ns ]

unfoldable pub sort_reports : List ReportMeta → List ReportMeta
unfolding insert_report
sort_reports [] = []
sort_reports (m ∷ ms) = insert_report m (sort_reports ms)

-- `try` and `except` in the loop of `index`; the exception of `abort` is passed over too.
abbrev pub also : Outcome Loaded → List Loaded → List Loaded
also (gives r) rest = r ∷ rest
also (aborts code) rest = rest
also raises rest = rest

unfoldable pub load_reports : Bucket → List ReportMeta → List Loaded
unfolding get_report
load_reports s3 [] = []
load_reports s3 (meta ∷ metas) = also (get_report s3 meta.key) (load_reports s3 metas)

module _ (config : Config) where
  unfoldable pub meta_of : Object → ReportMeta
  meta_of obj = record {
    key = obj.key;
    filename = config.filename obj.key;
    last_modified = obj.last_modified;
    size = obj.size;
  }

  unfoldable pub metas_of : List (List Object) → List ReportMeta
  unfolding meta_of
  metas_of [] = []
  metas_of (contents ∷ pages) = map meta_of contents ++ metas_of pages

  unfoldable pub day_prefix : ℕ → String
  day_prefix day_offset = config.reports_prefix then (config.day_text day_offset then "/")

  -- `for day_offset in range(days)`, of which `left` are left.
  unfoldable pub day_loop : Bucket → ℕ → ℕ → List ReportMeta → Option (List ReportMeta)
  unfolding day_prefix metas_of
  day_loop s3 zero day_offset reports = some reports
  day_loop s3 (suc left) day_offset reports = elim (s3.pages (day_prefix day_offset)) [
    | none ↦ none
    | some pages ↦ day_loop s3 left (day_offset + 1) (reports ++ metas_of pages)
  ]

  -- `list_reports`, where a negative number of days is as none; `none` is an exception.
  unfoldable pub list_reports : Bucket → ℤ → Option (List ReportMeta)
  unfolding day_loop sort_reports
  list_reports s3 (pos days) = elim (day_loop s3 days 0 []) [
    | none ↦ none
    | some reports ↦ some (sort_reports reports)
  ]
  list_reports s3 (negsuc days) = some []

  -- `int(request.args.get("days", 7))`
  unfoldable pub days_of : Option String → Option ℤ
  days_of days = elim days [ none ↦ some (pos 7) | some t ↦ config.int t ]

-- A request with its argument, and what is sent, without the settings that a page shows too.
pub data Request : Type 0 where
  index : (days : Option String) → Request
  report_detail : (key : Option String) → Request
  api_reports : (days : Option String) → Request
  api_report : (key : Option String) → Request
  health : Request

pub data Page : Type 0 where
  index_page : (stats : Stats) (report_metas : List ReportMeta) (days : ℤ) → Page
  report_page : (report : Loaded) (key : String) → Page
  reports_json : List ReportMeta → Page
  report_json : Loaded → Page
  health_json : Page

module _ (config : Config) where
  unfoldable pub index_response : Bucket → ℤ → List ReportMeta → Page
  unfolding load_reports compute_stats
  index_response s3 days report_metas =
      index_page
        (compute_stats config.upper config.severity_rank (load_reports s3 (take 200 report_metas)))
        (take 100 report_metas) days

  -- `not key or not key.startswith(REPORTS_PREFIX)`, negated.
  unfoldable pub is_allowed : String → Bool
  is_allowed key = if key == "" then false else starts_with key config.reports_prefix

  -- The shared part of `report_detail` and `api_report`.
  unfoldable pub open_report : Bucket → Option String → (Loaded → String → Page) → Outcome Page
  unfolding is_allowed get_report
  open_report s3 arg show =
      let key = get_or arg "" in
      if is_allowed key
      then elim (get_report s3 key) [
        | gives r ↦ gives (show r key)
        | aborts code ↦ aborts code
        | raises ↦ raises
      ]
      else aborts 400

  -- The pages that list the reports.
  unfoldable pub with_reports : Bucket → Option String → (ℤ → List ReportMeta → Page) → Outcome Page
  unfolding days_of list_reports
  with_reports s3 arg show = elim (days_of config arg) [
    | none ↦ raises
    | some days ↦ elim (list_reports config s3 days) [
      | none ↦ raises
      | some metas ↦ gives (show days metas)
    ]
  ]

  unfoldable pub handle : Bucket → Request → Outcome Page
  unfolding index_response open_report with_reports
  handle s3 (index days) = with_reports s3 days (index_response s3)
  handle s3 (report_detail key) = open_report s3 key report_page
  handle s3 (api_reports days) = with_reports s3 days (λ n metas. reports_json metas)
  handle s3 (api_report key) = open_report s3 key (λ r k. report_json r)
  handle s3 health = gives health_json
