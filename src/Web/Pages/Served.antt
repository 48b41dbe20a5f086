-- ===== src/Web/Pages/Served.antt =====
-- What a client gets for a request of a page.
use jim_tf.Base.{
  ℕ, ◌+◌, ◌≡◌, refl, if◌then◌else◌, ◌⊎◌, inl, inr, String, true, Option, none, some, List, [], ◌∷◌,
  ◌++◌, contains, string_key, ◌==◌, Bool-cases, Option-cases, arith,
}
use jim_tf.Web.{Pool, Answer}
use jim_tf.Web.Sql.{tables_for}
use jim_tf.Web.Retries.{failing, failing_in, Leaks, query_with_retry-held}
use jim_tf.Web.Pages.{
  Request, Execute, Round, Payload, health, internal_error, Written, head, body, sent, Wire,
  Writing, json_response, runtime_of, scheme_of, tries_of, run_query, query_page, do_schemes,
  do_throughput, do_scheme, schemes_payload, scheme_payload, throughput_payload, finished,
  api_schemes, api_scheme, api_throughput, respond, route_get, do_get,
}

abbrev pub page_paths : List String
page_paths = "/health" ∷ "/api/schemes" ∷ "/api/scheme" ∷ "/api/throughput" ∷ []

-- Writing over it raises no exception.
abbrev pub Works : Wire → Type 0
Works wire = (wire.head_raises ≡ none) × (wire.ending ≡ sent)

-- One whole response: a page, or the error.
abbrev pub IsOneResponse : List Written → Type 0
IsOneResponse out =
    ((p : Payload) × (out ≡ head 200 ∷ body p ∷ [])) ⊎ (out ≡ head 500 ∷ body internal_error ∷ [])

json_response_lem :
    (p : Payload) (status : ℕ) (wire : Wire) (out : List Written)
    → Works wire
    → json_response p status wire out ≡ (none, out ++ head status ∷ body p ∷ [])
unfolding json_response
json_response_lem p status wire out w = rw (w.0, w.1) refl

-- The calls of `putconn` that raise.
abbrev pub failing_at : List Round → ℕ
failing_at [] = 0
failing_at (r ∷ rounds) = failing r.attempts + (if r.put_back then 0 else 1) + failing_at rounds

failing_in-tries_of {ℓ} :
    {A : Type ℓ} (fn : Execute → Answer A) (rounds : List Round)
    → failing_in (tries_of fn rounds) ≡ failing_at rounds
unfolding tries_of
failing_in-tries_of fn [] = refl
failing_in-tries_of fn (r ∷ rounds) = omega (arith, failing_in-tries_of fn rounds)

-- A page leaves out as many connections as there are such calls, at most.
abbrev Restores : (List Round → Pool → Option Payload × Pool) → Type 0
Restores page =
    (rounds : List Round) (s : Pool) → Leaks s.held (failing_at rounds) (page rounds s).1.held

keeps_all : (rounds : List Round) (s : Pool) → Leaks s.held (failing_at rounds) s.held
keeps_all rounds s = (omega arith, omega arith)

query_page-Restores {ℓ} :
    {A : Type ℓ} (fn : Execute → Answer A) (make : A → Option Payload)
    → Restores (query_page fn make)
unfolding run_query
query_page-Restores fn make rounds s =
    rw (← failing_in-tries_of fn rounds) (query_with_retry-held (tries_of fn rounds) none s)

module _ (req : Request) where
  api_schemes-Restores : Restores (api_schemes req)
  unfolding api_schemes
  api_schemes-Restores rounds s = elim (Option-cases (runtime_of req)) [
    | inl e ↦ rw (e, api_schemes) (keeps_all rounds s)
    | inr (runtime, e) ↦
        rw (e, api_schemes)
          (query_page-Restores (do_schemes (tables_for runtime).summary) schemes_payload rounds s)
  ]

  api_scheme-Restores : Restores (api_scheme req)
  unfolding api_scheme
  api_scheme-Restores rounds s = elim (Option-cases (scheme_of req)) [
    | inl e ↦ rw (e, api_scheme) (keeps_all rounds s)
    | inr (scheme, e) ↦ elim (Option-cases (runtime_of req)) [
      | inl f ↦ rw (e, f, api_scheme) (keeps_all rounds s)
      | inr (runtime, f) ↦
          rw (e, f, api_scheme)
            (query_page-Restores (do_scheme scheme (tables_for runtime).factors)
              (scheme_payload scheme runtime) rounds s)
    ]
  ]

  api_throughput-Restores : Restores (api_throughput req)
  unfolding api_throughput
  api_throughput-Restores rounds s = elim (Option-cases (scheme_of req)) [
    | inl e ↦ rw (e, api_throughput) (keeps_all rounds s)
    | inr (scheme, e) ↦ elim (Option-cases (runtime_of req)) [
      | inl f ↦ rw (e, f, api_throughput) (keeps_all rounds s)
      | inr (runtime, f) ↦
          rw (e, f, api_throughput)
            (query_page-Restores (do_throughput scheme (tables_for runtime).factors)
              (throughput_payload scheme) rounds s)
    ]
  ]

module _ (wire error_wire : Wire) (works : Works wire) (error_works : Works error_wire)
    (held lost : ℕ) where
  -- A page that leaves out few connections is answered by one response.
  finished-IsOneResponse :
      (page : Option Payload × Pool)
      → Leaks held lost page.1.held
      → IsOneResponse (finished error_wire (respond page wire)).0
        × Leaks held lost (finished error_wire (respond page wire)).1.held
  unfolding respond finished
  finished-IsOneResponse (none, s) h =
      rw (json_response_lem internal_error 500 error_wire [] error_works) (inr refl, h)
  finished-IsOneResponse (some p, s) h =
      rw (json_response_lem p 200 wire [] works) (inl (p, refl), h)

module _ (static : String → Writing) (wire error_wire : Wire) where
  -- If the path is that of a page, and the writing of the response and of the error response raises
  -- nothing, then `do_GET` writes one response, whatever the database answers: a page with the status
  -- 200, or the error with the status 500; and it leaves out at most as many connections as there
  -- are calls of `putconn` that raise.
  pub do_get-IsOneResponse :
      (req : Request) (rounds : List Round) (s : Pool)
      → contains page_paths req.path ≡ true
      → Works wire
      → Works error_wire
      → IsOneResponse (do_get static req rounds wire error_wire s).0
        × Leaks s.held (failing_at rounds) (do_get static req rounds wire error_wire s).1.held
  unfolding do_get
  do_get-IsOneResponse req rounds s is_page w v = elim (Bool-cases (req.path == "/health")) [
    | inl e ↦ by_page (some health, s) (keeps_all rounds s) (rw (e, route_get) refl)
    | inr e ↦ elim (Bool-cases (req.path == "/api/schemes")) [
      | inl f ↦
          by_page (api_schemes req rounds s) (api_schemes-Restores req rounds s)
            (rw (e, f, route_get) refl)
      | inr f ↦ elim (Bool-cases (req.path == "/api/scheme")) [
        | inl g ↦
            by_page (api_scheme req rounds s) (api_scheme-Restores req rounds s)
              (rw (e, f, g, route_get) refl)
        | inr g ↦ elim (Bool-cases (req.path == "/api/throughput")) [
          | inl h ↦
              by_page (api_throughput req rounds s) (api_throughput-Restores req rounds s)
                (rw (e, f, g, h, route_get) refl)
          | inr h ↦ absurd (ground (arith, is_page))
        ]
      ]
    ]
  ]
    where
      by_page :
          (page : Option Payload × Pool)
          → Leaks s.held (failing_at rounds) page.1.held
          → route_get static req rounds wire s ≡ respond page wire
          → IsOneResponse (finished error_wire (route_get static req rounds wire s)).0
            × Leaks s.held
                (failing_at rounds)
                (finished error_wire (route_get static req rounds wire s)).1.held
      by_page page h e =
          rw e (finished-IsOneResponse wire error_wire w v s.held (failing_at rounds) page h)
