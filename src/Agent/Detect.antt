-- ===== src/Agent/Detect.antt =====
-- The five detectors.
use jim_tf.Base.{
  Key, ℕ, ◌+◌, String, Option, none, some, Bool, false, not, ◌||◌, ◌&&◌, List, [], ◌∷◌, ◌++◌, map,
  keep, length, take, Dict, get_or, contains, leb, ◌==◌, string_key, nat_key, pair_key, group,
  adding, is_some, if◌then◌else◌,
}
use Prim.Native.String.{◌++◌ as ◌then◌}
use text.Mathlib.Text.{starts_with, find?}
use jim_tf.Agent.{
  Endpoint, Flow, Alert, high_drop_rate, unexpected_egress, cross_namespace_traffic, suspicious_dns,
  port_scan, internal_cidrs, system_namespaces, suspicious_dns_patterns,
}

-- `d.get(key) == text`
unfoldable pub text_is : String → Option String → Bool
text_is text none = false
text_is text (some t) = t == text

-- f"{e.get('namespace', '?')}/{e.get('pod_name', '?')}"
unfoldable pub workload : Endpoint → String
workload e = get_or e.namespace "?" then ("/" then get_or e.pod_name "?")

abbrev pub any {ℓ} : {A : Type ℓ} → (A → Bool) → List A → Bool
any p [] = false
any p (x ∷ xs) = p x || any p xs

unfoldable pub is_external_ip : String → Bool
is_external_ip ip = not (ip == "") && not (any (λ c. starts_with ip c) internal_cidrs)

-- `s.add(x)` on a set.
abbrev pub set_add : {A : Type 0} ⦃e : Key A⦄ → A → List A → List A
set_add x s = if contains s x then s else s ++ x ∷ []

-- The first loop of `detect_drops`: the pair and the flow, of a flow that counts.
unfoldable pub read_drop : Flow → Option ((String × String) × Flow)
read_drop f =
    if text_is "DROPPED" f.verdict
    then some ((workload f.source, workload f.destination), f)
    else none

abbrev pub append_flow : Flow → List Flow → List Flow
append_flow f records = records ++ f ∷ []

-- `n += 1`
abbrev pub count_one : Flow → ℕ → ℕ
count_one f n = n + 1

abbrev read_reason : Flow → Option (String × Flow)
read_reason r = some (get_or r.drop_reason "UNKNOWN", r)

unfoldable pub count_reasons : List Flow → Dict String ℕ
count_reasons records = group 0 (adding read_reason count_one) records []

abbrev pub first {ℓ} : {A : Type ℓ} → List A → Option A
first [] = none
first (x ∷ xs) = some x

unfoldable pub drop_alert : (String × String) × List Flow → Alert
drop_alert (pair, records) =
    high_drop_rate pair.0 pair.1 (length records) (count_reasons records) (first records)

unfoldable pub detect_drops : List Flow → List Alert
unfolding drop_alert
detect_drops flows =
    map drop_alert
      (keep (λ q. leb 5 (length q.1)) (group [] (adding read_drop append_flow) flows []))

-- The first loop of `detect_unexpected_egress`: the pod and the external address.
unfoldable pub read_egress : Flow → Option (String × String)
read_egress f =
    let src_ns = get_or f.source.namespace "" in
    let dst_ip = get_or f.ip_destination "" in
    if not (text_is "EGRESS" f.traffic_direction)
    then none
    else if contains system_namespaces src_ns || src_ns == ""
    then none
    else if is_external_ip dst_ip
    then some (src_ns then ("/" then get_or f.source.pod_name "?"), dst_ip)
    else none

-- `set_order` is the order in which Python lists a set.
unfoldable pub egress_alert : (List String → List String) → String × List String → Alert
egress_alert set_order (pod, ips) = unexpected_egress pod (length ips) (take 10 (set_order ips))

unfoldable pub detect_unexpected_egress : (List String → List String) → List Flow → List Alert
unfolding egress_alert
detect_unexpected_egress set_order flows =
    map (egress_alert set_order)
      (keep (λ q. leb 5 (length q.1)) (group [] (adding read_egress set_add) flows []))

-- The first loop of `detect_cross_namespace`: the two namespaces.
unfoldable pub read_cross : Flow → Option ((String × String) × Flow)
read_cross f =
    let src_ns = get_or f.source.namespace "" in
    let dst_ns = get_or f.destination.namespace "" in
    if not (text_is "FORWARDED" f.verdict)
    then none
    else if not (src_ns == "")
        && not (dst_ns == "")
        && not (src_ns == dst_ns)
        && not (contains system_namespaces src_ns)
        && not (contains system_namespaces dst_ns)
    then some ((src_ns, dst_ns), f)
    else none

unfoldable pub cross_alert : (String × String) × ℕ → Alert
cross_alert (pair, count) = cross_namespace_traffic pair.0 pair.1 count

unfoldable pub detect_cross_namespace : List Flow → List Alert
unfolding cross_alert
detect_cross_namespace flows =
    map cross_alert (keep (λ q. leb 20 q.1) (group 0 (adding read_cross count_one) flows []))

-- `lower` is Python's `str.lower`. A query that is missing is "".
unfoldable pub dns_query_of : (String → String) → Flow → String
dns_query_of lower f = lower (get_or f.dns_query "")

unfoldable pub is_suspicious : String → Bool
is_suspicious query = any (λ p. is_some (find? query p)) suspicious_dns_patterns

unfoldable pub detect_suspicious_dns : (String → String) → List Flow → List Alert
unfolding dns_query_of is_suspicious
detect_suspicious_dns lower flows =
    map (λ (f : Flow). suspicious_dns (workload f.source) (dns_query_of lower f))
      (keep (λ f. is_suspicious (dns_query_of lower f)) flows)

-- The first loop of `detect_port_scan`: the source and the port, where it is neither missing nor 0.
unfoldable pub dst_port : Flow → Option ℕ
dst_port f = elim f.tcp [ none ↦ f.udp | some port ↦ port ]

unfoldable pub read_port : Flow → Option (String × ℕ)
unfolding dst_port
read_port f = elim (dst_port f) [
  | none ↦ none
  | some port ↦ if leb 1 port then some (workload f.source, port) else none
]

-- `sorted`
abbrev pub sort_in : ℕ → List ℕ → List ℕ
sort_in x [] = x ∷ []
sort_in x (y ∷ ys) = if leb x y then x ∷ y ∷ ys else y ∷ sort_in x ys

abbrev pub sorted : List ℕ → List ℕ
sorted [] = []
sorted (x ∷ xs) = sort_in x (sorted xs)

unfoldable pub scan_alert : String × List ℕ → Alert
scan_alert (src, ports) = port_scan src (length ports) (take 20 (sorted ports))

unfoldable pub detect_port_scan : List Flow → List Alert
unfolding scan_alert
detect_port_scan flows =
    map scan_alert (keep (λ q. leb 15 (length q.1)) (group [] (adding read_port set_add) flows []))
