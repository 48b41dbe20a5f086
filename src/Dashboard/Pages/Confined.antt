-- ===== src/Dashboard/Pages/Confined.antt =====
-- Which objects the pages fetch.
use jim_tf.Base.{
  ℕ, zero, suc, ◌+◌, ◌≡◌, refl, sym, ap, ◌∙◌, inl, inr, String, Option, some, true, List, [], ◌∷◌,
  ◌++◌, map, take, All, All-append, get_or, string_key, if◌then◌else◌, Bool-cases, Option-cases,
  arith,
}
use jim_tf.Base.Int.{ℤ, pos, negsuc}
use Prim.Native.Nat.{Ordering}
use Prim.Native.String.{compare, ◌++◌ as ◌then◌}
use mathlib.Core.Path.{subst}
use text.Mathlib.Text.{starts_with}
use text.Mathlib.TextEquality.{starts_with_iff}
use text.Mathlib.TextLemmas.{append_assoc}
use text.Mathlib.TextPositions.{starts_with_of_prefix}
use jim_tf.Dashboard.{Loaded, compute_stats}
use jim_tf.Dashboard.Pages.{
  Object, ReportMeta, fails, Bucket, Config, get_report, also, insert_report, sort_reports, meta_of,
  metas_of, day_prefix, day_loop, list_reports, load_reports, Request, index, report_detail,
  api_reports, api_report, health, Page, index_page, report_page, report_json, gives,
  index_response, is_allowed, open_report, with_reports, days_of, handle,
}

-- S3 lists the objects whose keys start with the prefix.
abbrev pub ListsByPrefix : Bucket → Type 0
ListsByPrefix s3 =
    (prefix : String) (pages : List (List Object))
    → s3.pages prefix ≡ some pages
    → All (All (λ (o : Object). starts_with o.key prefix ≡ true)) pages

-- A bucket that refuses every key outside the prefix.
abbrev pub guarded : String → Bucket → Bucket
guarded prefix s3 = record s3 {
  get_object = λ key. if starts_with key prefix then s3.get_object key else fails;
}

starts_with_trans :
    (p q key : String) → starts_with key (p then q) ≡ true → starts_with key p ≡ true
starts_with_trans p q key h =
    let (u, e) = (starts_with_iff key (p then q)).0 h in
    starts_with_of_prefix p key (q then u, sym (append_assoc p q u) ∙ e)

module _ (config : Config) (s3 : Bucket) where
  abbrev IsInside : ReportMeta → Type 0
  IsInside m = starts_with m.key config.reports_prefix ≡ true

  get_report-guarded :
      (key : String)
      → starts_with key config.reports_prefix ≡ true
      → get_report (guarded config.reports_prefix s3) key ≡ get_report s3 key
  unfolding get_report
  get_report-guarded key h = rw (h, get_report) refl

  load_reports-guarded :
      (metas : List ReportMeta)
      → All IsInside metas
      → load_reports (guarded config.reports_prefix s3) metas ≡ load_reports s3 metas
  unfolding load_reports
  load_reports-guarded [] h = refl
  load_reports-guarded (m ∷ metas) h =
      λ i. also (get_report-guarded m.key h.0 i) (load_reports-guarded metas h.1 i)

  day_loop-guarded :
      (left day_offset : ℕ) (reports : List ReportMeta)
      → day_loop config (guarded config.reports_prefix s3) left day_offset reports
        ≡ day_loop config s3 left day_offset reports
  unfolding day_loop
  day_loop-guarded zero i reports = refl
  day_loop-guarded (suc left) i reports = elim (Option-cases (s3.pages (day_prefix config i))) [
    | inl e ↦ rw (e, day_loop) refl
    | inr (pages, e) ↦
        rw (e, day_loop) (day_loop-guarded left (i + 1) (reports ++ metas_of config pages))
  ]

  list_reports-guarded :
      (days : ℤ)
      → list_reports config (guarded config.reports_prefix s3) days ≡ list_reports config s3 days
  unfolding list_reports
  list_reports-guarded (pos n) = rw (day_loop-guarded n 0 [], list_reports) refl
  list_reports-guarded (negsuc n) = refl

  insert-All :
      (m : ReportMeta) (ms : List ReportMeta)
      → IsInside m
      → All IsInside ms
      → All IsInside (insert_report m ms)
  unfolding insert_report
  insert-All m [] h hs = (h, tt)
  insert-All m (n ∷ ns) h hs =
      by_order (compare n.last_modified m.last_modified) (insert-All m ns h hs.1)
    where
      by_order :
          (o : Ordering)
          → All IsInside (insert_report m ns)
          → All IsInside (elim o as (λ u. List ReportMeta) [
            | Ordering.gt ↦ n ∷ insert_report m ns
            | _ ↦ m ∷ n ∷ ns
          ])
      by_order Ordering.gt ih = (hs.0, ih)
      by_order Ordering.lt ih = (h, hs)
      by_order Ordering.eq ih = (h, hs)

  sort-All : (ms : List ReportMeta) → All IsInside ms → All IsInside (sort_reports ms)
  unfolding sort_reports
  sort-All [] h = tt
  sort-All (m ∷ ms) h = insert-All m (sort_reports ms) h.0 (sort-All ms h.1)

  take-All : (n : ℕ) (ms : List ReportMeta) → All IsInside ms → All IsInside (take n ms)
  take-All zero ms h = tt
  take-All (suc n) [] h = tt
  take-All (suc n) (m ∷ ms) h = (h.0, take-All n ms h.1)

  map_meta-All :
      (i : ℕ) (contents : List Object)
      → All (λ (o : Object). starts_with o.key (day_prefix config i) ≡ true) contents
      → All IsInside (map (meta_of config) contents)
  unfolding meta_of day_prefix
  map_meta-All i [] h = tt
  map_meta-All i (o ∷ contents) h = (
    starts_with_trans config.reports_prefix (config.day_text i then "/") o.key h.0,
    map_meta-All i contents h.1,
  )

  metas_of-All :
      (i : ℕ) (pages : List (List Object))
      → All (All (λ (o : Object). starts_with o.key (day_prefix config i) ≡ true)) pages
      → All IsInside (metas_of config pages)
  unfolding metas_of meta_of day_prefix
  metas_of-All i [] h = tt
  metas_of-All i (contents ∷ pages) h =
      All-append IsInside (map (meta_of config) contents) (metas_of config pages)
        (map_meta-All i contents h.0) (metas_of-All i pages h.1)

  module _ (lists : ListsByPrefix s3) where
    day_loop-All :
        (left i : ℕ) (reports metas : List ReportMeta)
        → All IsInside reports
        → day_loop config s3 left i reports ≡ some metas
        → All IsInside metas
    unfolding day_loop
    day_loop-All zero i reports metas h e =
        subst (All IsInside) (let same : reports ≡ metas = cc in same) h
    day_loop-All (suc left) i reports metas h e =
        elim (Option-cases (s3.pages (day_prefix config i))) [
          | inl f ↦ absurd (let g = rw (f, day_loop) at e in cc)
          | inr (pages, f) ↦
              day_loop-All left (i + 1) (reports ++ metas_of config pages) metas
                (All-append IsInside reports (metas_of config pages) h
                  (metas_of-All i pages (lists (day_prefix config i) pages f)))
                (rw (f, day_loop) at e)
        ]

    list_reports-All :
        (days : ℤ) (metas : List ReportMeta)
        → list_reports config s3 days ≡ some metas
        → All IsInside metas
    unfolding list_reports
    list_reports-All (pos n) metas e = elim (Option-cases (day_loop config s3 n 0 [])) [
      | inl f ↦ absurd (let g = rw (f, list_reports) at e in cc)
      | inr (reports, f) ↦
          subst (All IsInside)
            (let g : some (sort_reports reports) ≡ some metas = rw (f, list_reports) at e in
              let same : sort_reports reports ≡ metas = cc in same)
            (sort-All reports (day_loop-All n 0 [] reports tt f))
    ]
    list_reports-All (negsuc n) metas e =
        subst (All IsInside) (let same : [] ≡ metas = cc in same) tt

    index_response-guarded :
        (days : ℤ) (metas : List ReportMeta)
        → All IsInside metas
        → index_response config (guarded config.reports_prefix s3) days metas
          ≡ index_response config s3 days metas
    unfolding index_response
    index_response-guarded days metas h =
        ap
          (λ rs.
            index_page (compute_stats config.upper config.severity_rank rs) (take 100 metas) days)
          (load_reports-guarded (take 200 metas) (take-All 200 metas h))

    with_reports-guarded :
        (arg : Option String) (show show' : ℤ → List ReportMeta → Page)
        → ((days : ℤ) (metas : List ReportMeta)
            → All IsInside metas
            → show days metas ≡ show' days metas)
        → with_reports config (guarded config.reports_prefix s3) arg show
          ≡ with_reports config s3 arg show'
    unfolding with_reports
    with_reports-guarded arg show show' h = elim (Option-cases (days_of config arg)) [
      | inl e ↦ rw (e, with_reports) refl
      | inr (days, e) ↦ elim (Option-cases (list_reports config s3 days)) [
        | inl f ↦ rw (e, with_reports, list_reports-guarded days, f) refl
        | inr (metas, f) ↦
            rw (e, with_reports, list_reports-guarded days, f)
              (ap gives (h days metas (list_reports-All days metas f)))
      ]
    ]

    open_report-guarded :
        (arg : Option String) (show : Loaded → String → Page)
        → open_report config (guarded config.reports_prefix s3) arg show
          ≡ open_report config s3 arg show
    unfolding open_report is_allowed
    open_report-guarded arg show = elim (Bool-cases (is_allowed config (get_or arg ""))) [
      | inr e ↦ rw (e, open_report) refl
      | inl e ↦
          let inside : starts_with (get_or arg "") config.reports_prefix ≡ true =
            unfold is_allowed in ground (arith, e) in
          rw (e, open_report, get_report-guarded (get_or arg "") inside) refl
    ]

    -- If S3 lists the objects whose keys start with the prefix, then a bucket that refuses every key
    -- outside REPORTS_PREFIX answers the same to every request: no page fetches another object.
    pub handle-guarded :
        (req : Request)
        → handle config (guarded config.reports_prefix s3) req ≡ handle config s3 req
    unfolding handle
    handle-guarded (index days) = with_reports-guarded days _ _ index_response-guarded
    handle-guarded (report_detail key) = open_report-guarded key report_page
    handle-guarded (api_reports days) = with_reports-guarded days _ _ (λ n metas h. refl)
    handle-guarded (api_report key) = open_report-guarded key (λ r k. report_json r)
    handle-guarded health = refl
