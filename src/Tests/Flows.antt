-- ===== src/Tests/Flows.antt =====
-- Examples for the security agent.
use jim_tf.Base.{
  ◌≡◌, ◌↔◌, ℕ, true, contains, take, refl, String, Option, none, some, List, [], ◌∷◌, keep, length,
  leb, string_key, ◌==◌, pair_key, if◌then◌else◌, nat_key,
}
use mathlib.Core.List.{Memᴰ}
use jim_tf.Agent.{Flow, Alert, high_drop_rate, port_scan, suspicious_dns}
use jim_tf.Agent.Detect.{
  read_drop, count_reasons, first, sorted, detect_drops, read_egress, detect_unexpected_egress,
  read_cross, detect_cross_namespace, read_port, detect_port_scan, detect_suspicious_dns, text_is,
  workload, dns_query_of, is_suspicious, is_external_ip,
}
use jim_tf.Agent.Sets.{NoRepeats}
use jim_tf.Agent.Ports.{Reaches}
use jim_tf.Agent.Exact.{
  drops_about, scan_about, was_dropped, detect_drops-exact, detect_port_scan-exact,
}
use jim_tf.Agent.Report.{Incident, Python, Correlated, unavailable, detect_all, main}
use jim_tf.Agent.Report.Runs.{IsUpper, Warns, main_unassisted}

abbrev pub miner : Flow
miner = record {
  verdict = some "DROPPED";
  drop_reason = none;
  traffic_direction = some "EGRESS";
  source = record { namespace = some "shop"; pod_name = some "web" };
  destination = record { namespace = some "bank"; pod_name = none };
  ip_destination = some "8.8.8.8";
  dns_query = some "eu.pool.example";
  tcp = some (some 443);
  udp = none;
}

abbrev flows : List Flow
flows = miner ∷ miner ∷ miner ∷ miner ∷ miner ∷ []

abbrev pub web_to_bank : String × String
web_to_bank = ("shop/web", "bank/?")

abbrev dropped : List Flow
dropped = keep (was_dropped web_to_bank) flows

detect_drops-exact_example : keep (drops_about web_to_bank) (detect_drops flows) ≡ (
    if leb 5 (length dropped)
    then high_drop_rate "shop/web" "bank/?" (length dropped) (count_reasons dropped) (first dropped)
      ∷ []
    else [])
detect_drops-exact_example = detect_drops-exact web_to_bank flows

detect_port_scan-exact_example :
    (ports : List ℕ) × NoRepeats ports
    × ((port : ℕ)
        → (contains ports port ≡ true) ↔ ((f : Flow) × Memᴰ f flows × Reaches "shop/web" port f))
    × (keep (scan_about "shop/web") (detect_port_scan flows) ≡ (
        if leb 15 (length ports)
        then port_scan "shop/web" (length ports) (take 20 (sorted ports)) ∷ []
        else []))
detect_port_scan-exact_example = detect_port_scan-exact "shop/web" flows

abbrev upper_few : String → String
upper_few t =
    if t == "low"
    then "LOW"
    else if t == "medium"
    then "MEDIUM"
    else if t == "high"
    then "HIGH"
    else "CRITICAL"

abbrev pub python : Python
python = record { lower = λ t. t; upper = upper_few; set_order = λ s. s; dumps = λ a. "{}" }

upper_few-IsUpper : IsUpper upper_few
upper_few-IsUpper = record { low = refl; medium = refl; high = refl; critical = refl }

dns_alert : detect_all python (miner ∷ []) ≡ suspicious_dns "shop/web" "eu.pool.example" ∷ []
unfolding detect_all detect_drops detect_unexpected_egress detect_cross_namespace
    detect_suspicious_dns detect_port_scan read_drop read_egress read_cross read_port text_is
    workload dns_query_of is_suspicious is_external_ip
dns_alert = refl

main_unassisted_example :
    Warns python
      (suspicious_dns "shop/web" "eu.pool.example" ∷ [])
      (main python ("key" ∷ []) (miner ∷ []) (λ alerts. unavailable))
main_unassisted_example =
    main_unassisted python "key" [] miner [] (λ alerts. unavailable)
      (suspicious_dns "shop/web" "eu.pool.example") [] upper_few-IsUpper dns_alert refl

abbrev silent : List Alert → Correlated
silent alerts = unavailable

abbrev incident : Option String → Incident
incident severity = record {
  title = none;
  severity = severity;
  threat_type = none;
  description = none;
  affected_workloads = [];
  recommendation = none;
}

abbrev incidents : List Incident
incidents =
    incident (some "LOW") ∷ incident none ∷ incident (some "HIGH") ∷ incident (some "odd") ∷ []
