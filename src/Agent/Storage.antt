-- ===== src/Agent/Storage.antt =====
-- What the agent reads from S3: the keys of the recent logs, and the flows of their lines; and the key
-- of a report. Times are counted in ticks from an origin at a full hour.
pub mod Modified
pub mod Recent
use jim_tf.Base.{
  ℕ, zero, suc, ◌+◌, ◌-◌, ◌*◌, ◌/◌, String, Option, none, some, Bool, true, false, List, [], ◌∷◌,
  ◌++◌, map, keep, leb, string_key, ◌==◌, if◌then◌else◌,
}
use Prim.Native.String.{◌++◌ as ◌then◌}
use jim_tf.Agent.{Flow}

pub record Object : Type 0 where
  pub key : String
  pub last_modified : ℕ

-- The pages that a paginator gives for a prefix, each by its `Contents`; `none` is an exception.
abbrev pub Listing : Type 0
Listing = String → Option (List (List Object))

-- The inner loops: the keys of the objects that were modified since `start`.
unfoldable pub recent_of : ℕ → List Object → List String
recent_of start contents =
    map (λ (o : Object). o.key) (keep (λ (o : Object). leb start o.last_modified) contents)

unfoldable pub recent_keys : ℕ → List (List Object) → List String → List String
unfolding recent_of
recent_keys start [] keys = keys
recent_keys start (contents ∷ pages) keys =
    recent_keys start pages (keys ++ recent_of start contents)

-- How the loop over the hours ends; without enough fuel it does not.
pub data Listed : Type 0 where
  listed : List String → Listed
  raised unfinished : Listed

-- `hour` is the ticks of an hour, and `hour_text` is `strftime` with `%Y/%m/%d/%H`.
module _ (hour : ℕ) (hour_text : ℕ → String) (list_objects : Listing) where
  unfoldable pub hour_prefix : String → ℕ → String
  hour_prefix prefix current = prefix then ("hubble.flows/" then (hour_text current then "/"))

  -- `while current <= now`
  unfoldable pub hours_loop : String → ℕ → ℕ → ℕ → ℕ → List String → Listed
  unfolding hour_prefix recent_keys
  hours_loop prefix start now zero current keys = unfinished
  hours_loop prefix start now (suc fuel) current keys = elim (leb current now) [
    | false ↦ listed keys
    | true ↦ elim (list_objects (hour_prefix prefix current)) [
      | none ↦ raised
      | some pages ↦
          hours_loop prefix start now fuel (current + hour) (recent_keys start pages keys)
    ]
  ]

  -- `list_recent_s3_keys`, at the time `now`.
  unfoldable pub list_recent_s3_keys : String → ℕ → ℕ → ℕ → Listed
  unfolding hours_loop
  list_recent_s3_keys prefix lookback now fuel =
      let start = now - lookback in hours_loop prefix start now fuel (start / hour * hour) []

-- What the agent uses to read an object: the call, `endswith`, `gzip.decompress`, the lines of the
-- body, `strip` and `json.loads`; `none` is an exception.
pub record Reader : Type 0 where
  pub get_object : String → Option String
  pub ends_with : String → String → Bool
  pub decompress : String → Option String
  pub lines : String → List String
  pub strip : String → String
  pub loads : String → Option Flow

module _ (reader : Reader) where
  -- The lines of a body, up to the first that raises.
  unfoldable pub read_lines : List String → List Flow → List Flow
  read_lines [] flows = flows
  read_lines (raw ∷ lines) flows =
      if reader.strip raw == ""
      then read_lines lines flows
      else elim (reader.loads (reader.strip raw)) [
        | none ↦ flows
        | some f ↦ read_lines lines (flows ++ f ∷ [])
      ]

  unfoldable pub body_of : String → Option String
  body_of key = elim (reader.get_object key) [
    | none ↦ none
    | some body ↦ if reader.ends_with key ".gz" then reader.decompress body else some body
  ]

  -- One round of `for key in keys`.
  unfoldable pub read_key : String → List Flow → List Flow
  unfolding read_lines body_of
  read_key key flows = elim (body_of key) [
    | none ↦ flows
    | some body ↦ read_lines (reader.lines body) flows
  ]

  unfoldable pub read_loop : List String → List Flow → List Flow
  unfolding read_key
  read_loop [] flows = flows
  read_loop (key ∷ keys) flows = read_loop keys (read_key key flows)

  unfoldable pub read_flows_from_s3 : List String → List Flow
  unfolding read_loop
  read_flows_from_s3 keys = read_loop keys []

-- The key of a report in `save_report_to_s3`: the texts of the date and of the time, and the run's id.
unfoldable pub report_key : String → String → String → String → String
report_key reports_prefix day time run_id =
    reports_prefix then (day then ("/" then (time then ("-" then (run_id then ".json")))))
