-- ===== src/Agent/Ports.antt =====
-- The ports that the flows of a source reach, as `detect_port_scan` reads them.
use jim_tf.Base.{
  Bool-cases, inl, inr, ℕ, ◌≡◌, refl, ◌∙◌, String, none, some, Option, get_or, Option-cases, ◌≤◌,
  ◌⊎◌, ◌↔◌, ap, List, [], ◌∷◌, true, contains, ◌==◌, string_key, nat_key, pair_key, items_at, arith,
  if◌then◌else◌, sym,
}
use Prim.Native.String.{◌++◌ as ◌then◌}
use mathlib.Core.List.{Memᴰ}
use mathlib.Core.Path.{subst}
use mathlib.Core.List.Memᴰ
use text.Mathlib.TextEquality.{eq_iff}
use jim_tf.Agent.{Endpoint, Flow}
use jim_tf.Agent.Detect.{workload, dst_port, read_port}

-- The name of a workload: its namespace and its pod, each "?" if it is missing.
abbrev pub named : Endpoint → String
named e = get_or e.namespace "?" then ("/" then get_or e.pod_name "?")

-- The flow goes from the workload to the port: that of TCP, or of UDP where it has no TCP part.
abbrev pub Reaches : String → ℕ → Flow → Type 0
Reaches src port f =
    (1 ≤ port)
    × (named f.source ≡ src)
    × ((f.tcp ≡ some (some port)) ⊎ ((f.tcp ≡ none) × (f.udp ≡ some port)))

pub port_of :
    (f : Flow) (port : ℕ)
    → (dst_port f ≡ some port)
      ↔ ((f.tcp ≡ some (some port)) ⊎ ((f.tcp ≡ none) × (f.udp ≡ some port)))
unfolding dst_port
port_of f port = elim (Option-cases f.tcp) [
  | inl e ↦ (
    (λ h. inr (e, (rw (e, dst_port) at h))),
    λ h. elim h [ inl t ↦ cc | inr u ↦ rw (e, dst_port) u.1 ],
  )
  | inr (p, e) ↦ (
    (λ h. inl (e ∙ ap some (rw (e, dst_port) at h))),
    λ h. elim h [
      | inl t ↦ rw (e, dst_port) (let k : some p ≡ some (some port) = sym e ∙ t in (cc))
      | inr u ↦ cc
    ],
  )
]

pub read_port_iff :
    (f : Flow) (src : String) (port : ℕ) → (read_port f ≡ some (src, port)) ↔ Reaches src port f
unfolding read_port workload
read_port_iff f src port = elim (Option-cases (dst_port f)) [
  | inl e ↦ (
    (λ h. absurd (let k = rw (e, read_port) at h in (cc))),
    λ r. absurd (let k : none ≡ some port = sym e ∙ (port_of f port).1 r.2 in (cc)),
  )
  | inr (p, e) ↦ (
    (λ h.
        let k = rw (e, read_port) at h in
        let positive : 1 ≤ p = ground (arith, k) in
        let same : (workload f.source, p) ≡ (src, port) = ground (arith, k) in
        let at_port : p ≡ port = ap (λ (x : String × ℕ). x.1) same in
        (
          omega (arith, positive, at_port),
          ap (λ (x : String × ℕ). x.0) same,
          (port_of f port).0 (e ∙ ap some at_port),
        )),
    λ r.
        let k : some p ≡ some port = sym e ∙ (port_of f port).1 r.2 in
        let at_port : p ≡ port = cc in
        let name : workload f.source ≡ src = r.1 in
        rw (e, read_port) (ground (arith, at_port, name, r.0)),
  )
]

pub ports_reached :
    (src : String) (port : ℕ) (flows : List Flow)
    → (contains (items_at read_port src flows) port ≡ true)
      ↔ ((f : Flow) × Memᴰ f flows × Reaches src port f)
ports_reached src port [] = ((λ h. absurd (cc)), λ (f, m, r). absurd (Memᴰ.not-nil m))
ports_reached src port (f ∷ fs) =
    by_read (read_port f) refl (ports_reached src port fs) (read_port_iff f src port)
  where
    by_read :
        (r : Option (String × ℕ))
        → read_port f ≡ r
        → (contains (items_at read_port src fs) port ≡ true)
          ↔ ((g : Flow) × Memᴰ g fs × Reaches src port g)
        → (read_port f ≡ some (src, port)) ↔ Reaches src port f
        → (contains
              (elim r [
                | none ↦ items_at read_port src fs
                | some (j, x) ↦
                    if j == src then x ∷ items_at read_port src fs else items_at read_port src fs
              ])
              port
            ≡ true)
          ↔ ((g : Flow) × Memᴰ g (f ∷ fs) × Reaches src port g)
    by_read none e later here = (
      (λ h. let (g, m, r) = later.0 h in (g, Memᴰ.tail m, r)),
      λ (g, m, r). elim (Memᴰ.cases_cons m) [
        | inl same ↦
            absurd (let k = here.1 (subst (Reaches src port) same r) in let z = sym e ∙ k in (cc))
        | inr t ↦ later.1 (g, t, r)
      ],
    )
    by_read (some (j, x)) e later here = (
      (λ h. elim (Bool-cases (j == src)) [
        | inl at_src ↦ elim (Bool-cases (x == port)) [
          | inl at_port ↦ (
            f,
            Memᴰ.head refl,
            here.0 (
                let name : j ≡ src = (eq_iff j src).0 at_src in
                let same : x ≡ port = ground arith in e ∙ (cc)),
          )
          | inr other ↦ let (g, m, r) = later.0 (ground arith) in (g, Memᴰ.tail m, r)
        ]
        | inr other ↦ let (g, m, r) = later.0 (ground arith) in (g, Memᴰ.tail m, r)
      ]),
      λ (g, m, r). elim (Memᴰ.cases_cons m) [
        | inl same ↦
            let k : some (j, x) ≡ some (src, port) =
              sym e ∙ here.1 (subst (Reaches src port) same r) in
            let pair : (j, x) ≡ (src, port) = ground (arith, k) in
            let name : j ≡ src = ap (λ (q : String × ℕ). q.0) pair in
            let named : (j == src) ≡ true = (eq_iff j src).1 name in
            let at_port : x ≡ port = ap (λ (q : String × ℕ). q.1) pair in
            ground (arith, named, at_port)
        | inr t ↦ let k = later.1 (g, t, r) in ground arith
      ],
    )
