-- ===== src/Agent/Storage/Recent.antt =====
-- The keys that `list_recent_s3_keys` returns.
use jim_tf.Base.{
  ℕ, zero, suc, ◌+◌, ◌-◌, ◌*◌, ◌/◌, ◌≤◌, ◌<◌, ◌≡◌, ◌↔◌, sym, ap, ◌∙◌, inl, inr, String, some, true,
  false, List, [], ◌++◌, append-nil, append_assoc, leb, contains, contains-append, nat_eq,
  string_key, Bool-cases, arith,
}
use mathlib.Core.Path.{subst}
use mathlib.Core.List.{Memᴰ}
use Prim.Native.String.{◌++◌ as ◌then◌}
use native.Mathlib.Nat.{
  mul-le-mul_right, suc-mul, add-mul, lt-div-mul-add, mul-div_left, le-div_iff_mul-le,
  div-mul-le_self,
}
use jim_tf.Agent.Storage.{
  Object, recent_keys, Listed, listed, hour_prefix, hours_loop, list_recent_s3_keys,
}
use jim_tf.Agent.Storage.Modified.{recent_keys_lem, recent_keys_iff}

module _ (hour : ℕ) (hour_text : ℕ → String) (pages_of : String → List (List Object))
    (prefix : String) (start now : ℕ) where
  abbrev loop : ℕ → ℕ → List String → Listed
  loop fuel current keys =
      hours_loop hour hour_text (λ p. some (pages_of p)) prefix start now fuel current keys

  -- The recent keys under the prefix of the hour that starts at a time.
  abbrev pub under : ℕ → List String
  under t =
      recent_keys start (pages_of (hour_prefix hour hour_text (λ p. some (pages_of p)) prefix t)) []

  abbrev IsUnderHour : ℕ → String → Type 0
  IsUnderHour m k = (j : ℕ) × (m ≤ j) × (j * hour ≤ now) × (contains (under (j * hour)) k ≡ true)

  -- From the `m`th hour on, the loop adds the keys of each hour.
  abbrev Adds : ℕ → Listed → List String → Type 0
  Adds m result keys =
      (ks : List String) × (result ≡ listed (keys ++ ks))
      × ((k : String) → (contains ks k ≡ true) ↔ IsUnderHour m k)

  loop_stops :
      (fuel m : ℕ) (keys : List String)
      → leb (m * hour) now ≡ false
      → Adds m (loop (suc fuel) (m * hour) keys) keys
  unfolding hours_loop
  loop_stops fuel m keys e = (
    [],
    (rw (e, hours_loop) (ap listed (sym (append-nil keys)))),
    λ k. (
      (λ h. cc),
      λ (j, le, in_time, h). absurd (ground (arith, e, in_time, mul-le-mul_right hour le)),
    ),
  )

  loop_goes :
      (fuel m : ℕ) (keys : List String)
      → leb (m * hour) now ≡ true
      → loop (suc (suc fuel)) (m * hour) keys
        ≡ loop (suc fuel) (suc m * hour) (keys ++ under (m * hour))
  unfolding hours_loop
  loop_goes fuel m keys e =
      let pages =
        pages_of (hour_prefix hour hour_text (λ p. some (pages_of p)) prefix (m * hour)) in
      let next : m * hour + hour ≡ suc m * hour = sym (suc-mul m hour) in
      rw (e, hours_loop)
        (ap (λ ks. loop (suc fuel) (m * hour + hour) ks) (recent_keys_lem start pages keys)
          ∙ ap (λ t. loop (suc fuel) t (keys ++ under (m * hour))) next)

  -- Under an hour from the `m`th on: under the `m`th, or under a later one.
  under_hours :
      (m : ℕ) (k : String) (later : List String)
      → m * hour ≤ now
      → (contains later k ≡ true) ↔ IsUnderHour (suc m) k
      → (contains (under (m * hour) ++ later) k ≡ true) ↔ IsUnderHour m k
  under_hours m k later in_time h = (to, from)
    where
      to : contains (under (m * hour) ++ later) k ≡ true → IsUnderHour m k
      to c = elim (Bool-cases (contains (under (m * hour)) k)) [
        | inl e ↦ (m, omega arith, in_time, e)
        | inr e ↦
            let l : contains later k ≡ true =
              ground (arith, contains-append (under (m * hour)) later k, c, e) in
            let (j, le, t, g) = h.0 l in (j, omega arith, t, g)
      ]

      from : IsUnderHour m k → contains (under (m * hour) ++ later) k ≡ true
      from (j, le, t, g) = elim (Bool-cases (nat_eq j m)) [
        | inl e ↦
            let same : j ≡ m = ground arith in
            let c : contains (under (m * hour)) k ≡ true =
              subst (λ i. contains (under (i * hour)) k ≡ true) same g in
            ground (arith, contains-append (under (m * hour)) later k, c)
        | inr e ↦
            let c : contains later k ≡ true = h.1 (j, ground arith, t, g) in
            ground (arith, contains-append (under (m * hour)) later k, c)
      ]

  loop_from :
      (fuel m : ℕ) (keys : List String)
      → now < (m + fuel) * hour
      → Adds m (loop (suc fuel) (m * hour) keys) keys
  unfolding hours_loop
  loop_from zero m keys h =
      loop_stops zero m keys
        (let e : m + 0 ≡ m = omega arith in ground (arith, subst (λ n. now < n * hour) e h))
  loop_from (suc fuel) m keys h = elim (Bool-cases (leb (m * hour) now)) [
    | inl e ↦
        let ks = under (m * hour) in
        let moved : m + suc fuel ≡ suc m + fuel = omega arith in
        let next = loop_from fuel (suc m) (keys ++ ks) (subst (λ n. now < n * hour) moved h) in
        (
          ks ++ next.0,
          loop_goes fuel m keys e ∙ next.1 ∙ ap listed (append_assoc keys ks next.0),
          λ k. under_hours m k next.0 (ground arith) (next.2 k),
        )
    | inr e ↦ loop_stops (suc fuel) m keys e
  ]

enough_hours :
    (hour start lookback now fuel : ℕ)
    → 0 < hour
    → now ≤ start + lookback
    → lookback / hour + 2 ≤ fuel
    → now < (start / hour + fuel) * hour
enough_hours hour start lookback now fuel an_hour h enough =
    let s = start / hour in
    let l = lookback / hour in
    let more : (s + (l + 2)) * hour ≤ (s + fuel) * hour = mul-le-mul_right hour (omega arith) in
    let below : start < s * hour + hour = lt-div-mul-add an_hour in
    let below' : lookback < l * hour + hour = lt-div-mul-add an_hour in
    omega (arith, add-mul s (l + 2) hour, add-mul l 2 hour)

-- A time from the start on that lies in the hour.
time_under :
    (hour start now j : ℕ)
    → 0 < hour
    → start / hour ≤ j
    → j * hour ≤ now
    → start ≤ now
    → (t : ℕ) × (start ≤ t) × (t ≤ now) × (t / hour * hour ≡ j * hour)
time_under hour start now j an_hour le in_time h = elim (Bool-cases (leb start (j * hour))) [
  | inl e ↦ (j * hour, ground arith, in_time, ap (λ q. q * hour) (mul-div_left j an_hour))
  | inr e ↦
      let le' : j ≤ start / hour = (le-div_iff_mul-le an_hour).1 (ground arith) in
      let same : start / hour ≡ j = omega arith in (start, omega arith, h, ap (λ q. q * hour) same)
]

module _ (hour : ℕ) (hour_text : ℕ → String) (pages_of : String → List (List Object))
    (prefix : String) (lookback now : ℕ) where
  -- A time of the window, under the prefix of whose hour an object with the key is listed that was
  -- modified since the start of the window.
  abbrev pub IsRecent : String → Type 0
  IsRecent k =
      (t : ℕ) × (contents : List Object) × (o : Object) × (now - lookback ≤ t)
      × (t ≤ now)
      × Memᴰ contents
          (pages_of (prefix then ("hubble.flows/" then (hour_text (t / hour * hour) then "/"))))
      × Memᴰ o contents
      × (now - lookback ≤ o.last_modified)
      × (o.key ≡ k)

  abbrev IsUnder : String → Type 0
  IsUnder k =
      (t : ℕ) × (now - lookback ≤ t)
      × (t ≤ now)
      × (contains (under hour hour_text pages_of prefix (now - lookback) now (t / hour * hour)) k
          ≡ true)

  keys-IsUnder :
      (fuel : ℕ)
      → 0 < hour
      → lookback ≤ now
      → lookback / hour + 2 ≤ fuel
      → (keys : List String) × (list_recent_s3_keys hour hour_text
            (λ p. some (pages_of p))
            prefix
            lookback
            now
            (suc fuel)
          ≡ listed keys)
        × ((k : String) → (contains keys k ≡ true) ↔ IsUnder k)
  unfolding list_recent_s3_keys
  keys-IsUnder fuel an_hour far enough =
      let start = now - lookback in
      let found =
        loop_from hour hour_text pages_of prefix start now fuel (start / hour) []
          (enough_hours hour start lookback now fuel an_hour (omega (arith, far)) enough) in
      (
        found.0,
        found.1,
        λ k.
            let same = found.2 k in
            (
              λ c.
                  let (j, le, in_time, g) = same.0 c in
                  let (t, after, before, e) =
                    time_under hour start now j an_hour le in_time (omega arith) in
                  (
                    t,
                    after,
                    before,
                    subst
                        (λ u. contains (under hour hour_text pages_of prefix start now u) k ≡ true)
                        (sym e) g,
                  ),
              λ (t, after, before, g). same.1 (
                t / hour,
                (le-div_iff_mul-le an_hour).1 (omega (arith, div-mul-le_self start hour)),
                omega (arith, div-mul-le_self t hour),
                g,
              ),
            ),
      )

  -- If S3 lists the objects under every prefix, and with fuel for two hours more than the lookback has,
  -- `list_recent_s3_keys` returns, and a key is among those that it returns if and only if it is that
  -- of an object modified within the lookback, under the prefix of the hour of a time within the
  -- lookback.
  pub list_recent_s3_keys-exact :
      (fuel : ℕ)
      → 0 < hour
      → lookback ≤ now
      → lookback / hour + 2 ≤ fuel
      → (keys : List String) × (list_recent_s3_keys hour hour_text
            (λ p. some (pages_of p))
            prefix
            lookback
            now
            (suc fuel)
          ≡ listed keys)
        × ((k : String) → (contains keys k ≡ true) ↔ IsRecent k)
  unfolding hour_prefix
  list_recent_s3_keys-exact fuel an_hour far enough =
      let (keys, e, same) = keys-IsUnder fuel an_hour far enough in
      let found = λ (t : ℕ) (k : String).
        recent_keys_iff (now - lookback) k
          (pages_of (prefix then ("hubble.flows/" then (hour_text (t / hour * hour) then "/")))) in
      (
        keys,
        e,
        λ k. (
          (λ c.
              let (t, after, before, u) = (same k).0 c in
              let (p, o, m, m', l, q) = (found t k).0 u in (t, p, o, after, before, m, m', l, q)),
          λ (t, p, o, after, before, m, m', l, q).
              (same k).1 (t, after, before, (found t k).1 (p, o, m, m', l, q)),
        ),
      )
