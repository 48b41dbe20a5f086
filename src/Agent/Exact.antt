-- ===== src/Agent/Exact.antt =====
-- Which alerts the detectors give for one source or pair, against the flows that count for it.
use jim_tf.Base.{
  inl, inr, ℕ, ◌+◌, ◌≡◌, refl, ◌∙◌, String, none, some, Option-cases, ◌&&◌, ◌↔◌, ap, Bool, false,
  List, [], ◌∷◌, ◌++◌, map, keep, length, take, true, contains, leb, ◌==◌, string_key, nat_key,
  pair_key, items_at, add_all, after_items, entries_at, reports_at, append-nil, append_assoc, arith,
  if◌then◌else◌, sym,
}
use Prim.Native.String.{◌++◌ as ◌then◌}
use mathlib.Core.List.{Memᴰ}
use jim_tf.Agent.{
  Flow, Alert, high_drop_rate, unexpected_egress, cross_namespace_traffic, port_scan,
}
use jim_tf.Agent.Detect.{
  text_is, workload, count_reasons, first, sorted, append_flow, count_one, set_add, read_drop,
  drop_alert, detect_drops, read_egress, egress_alert, detect_unexpected_egress, read_cross,
  cross_alert, detect_cross_namespace, read_port, scan_alert, detect_port_scan,
}
use jim_tf.Agent.Sets.{unique, NoRepeats, unique-IsSetOf}
use jim_tf.Agent.Ports.{named, Reaches, ports_reached}

-- The alert is of this detector and about this key.
abbrev pub drops_about : String × String → Alert → Bool
drops_about pair (high_drop_rate source destination count reasons sample) =
    (source, destination) == pair
drops_about pair _ = false

abbrev pub egress_about : String → Alert → Bool
egress_about pod (unexpected_egress source count ips) = source == pod
egress_about pod _ = false

abbrev pub cross_about : String × String → Alert → Bool
cross_about pair (cross_namespace_traffic source destination count) = (source, destination) == pair
cross_about pair _ = false

abbrev pub scan_about : String → Alert → Bool
scan_about src (port_scan source count ports) = source == src
scan_about src _ = false

append_all : (fs records : List Flow) → add_all append_flow fs records ≡ records ++ fs
append_all [] records = sym (append-nil records)
append_all (f ∷ fs) records = append_all fs (records ++ f ∷ []) ∙ append_assoc records (f ∷ []) fs

count_all : (fs : List Flow) (n : ℕ) → add_all count_one fs n ≡ n + length fs
count_all [] n = omega arith
count_all (f ∷ fs) n = omega (arith, count_all fs (n + 1))

-- The flow has the verdict DROPPED, and goes from the first workload to the second.
abbrev pub was_dropped : String × String → Flow → Bool
was_dropped pair f = elim f.verdict [
  | none ↦ false
  | some verdict ↦ verdict == "DROPPED" && (named f.source, named f.destination) == pair
]

pub items_at-was_dropped :
    (pair : String × String) (flows : List Flow)
    → items_at read_drop pair flows ≡ keep (was_dropped pair) flows
unfolding read_drop text_is workload
items_at-was_dropped pair [] = refl
items_at-was_dropped pair (f ∷ fs) = elim (Option-cases f.verdict) [
  | inl e ↦ rw e (items_at-was_dropped pair fs)
  | inr (verdict, e) ↦ rw e (ground (arith, items_at-was_dropped pair fs))
]

detect_drops-items :
    (pair : String × String) (flows : List Flow)
    → let dropped = items_at read_drop pair flows in
      keep (drops_about pair) (detect_drops flows)
      ≡ (if leb 5 (length dropped) then drop_alert (pair, dropped) ∷ [] else [])
unfolding detect_drops drop_alert
detect_drops-items pair flows =
    reports_at read_drop append_flow [] (λ records. leb 5 (length records)) drop_alert drops_about
      (λ k q. refl) pair flows
    ∙ by_items (items_at read_drop pair flows)
  where
    by_items :
        (fs : List Flow)
        → map drop_alert (
            entries_at
              (λ records. leb 5 (length records))
              pair
              (after_items append_flow [] fs none))
          ≡ (if leb 5 (length fs) then drop_alert (pair, fs) ∷ [] else [])
    by_items [] = refl
    by_items (f ∷ fs) = rw (append_all fs (f ∷ [])) (ground arith)

-- For a source and a destination, `detect_drops` gives one alert if at least five flows from one to the
-- other have the verdict DROPPED, with their number, the counts of their reasons and the first of
-- them, and no alert otherwise.
pub detect_drops-exact :
    (pair : String × String) (flows : List Flow)
    → let dropped = keep (was_dropped pair) flows in
      keep (drops_about pair) (detect_drops flows) ≡ (
        if leb 5 (length dropped)
        then high_drop_rate pair.0 pair.1 (length dropped) (count_reasons dropped) (first dropped)
          ∷ []
        else [])
unfolding drop_alert
detect_drops-exact pair flows =
    detect_drops-items pair flows
    ∙ ap (λ (fs : List Flow). if leb 5 (length fs) then drop_alert (pair, fs) ∷ [] else [])
        (items_at-was_dropped pair flows)

-- For two namespaces, `detect_cross_namespace` gives one alert if at least twenty flows count as
-- traffic from one to the other, with their number, and no alert otherwise.
pub detect_cross_namespace-exact :
    (pair : String × String) (flows : List Flow)
    → let crossing = items_at read_cross pair flows in
      keep (cross_about pair) (detect_cross_namespace flows) ≡ (
        if leb 20 (length crossing)
        then cross_namespace_traffic pair.0 pair.1 (length crossing) ∷ []
        else [])
unfolding detect_cross_namespace cross_alert
detect_cross_namespace-exact pair flows =
    reports_at read_cross count_one 0 (leb 20) cross_alert cross_about (λ k q. refl) pair flows
    ∙ by_items (items_at read_cross pair flows)
  where
    by_items :
        (fs : List Flow)
        → map cross_alert (entries_at (leb 20) pair (after_items count_one 0 fs none)) ≡ (
            if leb 20 (length fs)
            then cross_namespace_traffic pair.0 pair.1 (length fs) ∷ []
            else [])
    by_items [] = refl
    by_items (f ∷ fs) = rw (count_all fs 1) (ground arith)

-- For a pod, `detect_unexpected_egress` gives one alert if its flows went to at least five different
-- external addresses, with their number, and no alert otherwise.
pub detect_unexpected_egress-exact :
    (set_order : List String → List String) (pod : String) (flows : List Flow)
    → let ips = unique (items_at read_egress pod flows) in
      keep (egress_about pod) (detect_unexpected_egress set_order flows)
      ≡ (if leb 5 (length ips) then egress_alert set_order (pod, ips) ∷ [] else [])
unfolding detect_unexpected_egress egress_alert
detect_unexpected_egress-exact set_order pod flows =
    reports_at read_egress set_add [] (λ ips. leb 5 (length ips)) (egress_alert set_order)
      egress_about (λ k q. refl) pod flows
    ∙ by_items (items_at read_egress pod flows)
  where
    by_items :
        (xs : List String)
        → map
            (egress_alert set_order)
            (entries_at (λ ips. leb 5 (length ips)) pod (after_items set_add [] xs none))
          ≡ (if leb 5 (length (unique xs))
              then egress_alert set_order (pod, unique xs) ∷ []
              else [])
    by_items [] = refl
    by_items (x ∷ xs) = ground arith

detect_port_scan-items :
    (src : String) (flows : List Flow)
    → let ports = unique (items_at read_port src flows) in
      keep (scan_about src) (detect_port_scan flows)
      ≡ (if leb 15 (length ports) then scan_alert (src, ports) ∷ [] else [])
unfolding detect_port_scan scan_alert
detect_port_scan-items src flows =
    reports_at read_port set_add [] (λ ports. leb 15 (length ports)) scan_alert scan_about
      (λ k q. refl) src flows
    ∙ by_items (items_at read_port src flows)
  where
    by_items :
        (xs : List ℕ)
        → map scan_alert
            (entries_at (λ ports. leb 15 (length ports)) src (after_items set_add [] xs none))
          ≡ (if leb 15 (length (unique xs)) then scan_alert (src, unique xs) ∷ [] else [])
    by_items [] = refl
    by_items (x ∷ xs) = ground arith

-- For a source, `detect_port_scan` gives one alert if its flows reach at least fifteen different ports,
-- with their number and the first twenty of them in order, and no alert otherwise.
pub detect_port_scan-exact :
    (src : String) (flows : List Flow)
    → (ports : List ℕ) × NoRepeats ports
      × ((port : ℕ)
          → (contains ports port ≡ true) ↔ ((f : Flow) × Memᴰ f flows × Reaches src port f))
      × (keep (scan_about src) (detect_port_scan flows) ≡ (
          if leb 15 (length ports)
          then port_scan src (length ports) (take 20 (sorted ports)) ∷ []
          else []))
unfolding scan_alert
detect_port_scan-exact src flows =
    let items = items_at read_port src flows in
    let set = unique-IsSetOf items in
    (
      unique items,
      set.0,
      (λ port.
          let same = ports_reached src port flows in
          ((λ h. same.0 (sym (set.1 port) ∙ h)), λ r. set.1 port ∙ same.1 r)),
      detect_port_scan-items src flows,
    )
