-- ===== src/Agent.antt =====
-- infrastructure/security-agent/agent.py: what it reads of a flow record, and the alerts it makes.
pub mod Detect
pub mod Sets
pub mod Ports
pub mod Exact
pub mod Report
pub mod Storage
pub mod Program
use jim_tf.Base.{ℕ, String, Option, none, some, List, [], ◌∷◌, Dict}

-- `source` and `destination`; a missing dictionary is one without the two keys.
pub record Endpoint : Type 0 where
  pub namespace : Option String
  pub pod_name : Option String

-- A flow, as `json.loads` gives it. `tcp` is `none` where `l4` has no `TCP` or an empty one, and
-- otherwise its port, if it has one; `udp` is the port of `UDP`.
pub record Flow : Type 0 where
  pub verdict : Option String
  pub drop_reason : Option String
  pub traffic_direction : Option String
  pub source : Endpoint
  pub destination : Endpoint
  pub ip_destination : Option String
  pub dns_query : Option String
  pub tcp : Option (Option ℕ)
  pub udp : Option ℕ

-- The alerts of the five rules, with the fields of their dictionaries.
pub data Alert : Type 0 where
  high_drop_rate :
      (source destination : String) (count : ℕ) (drop_reasons : Dict String ℕ)
      (sample : Option Flow)
      → Alert
  unexpected_egress : (source : String) (unique_external_ips : ℕ) (sample_ips : List String) → Alert
  cross_namespace_traffic :
      (source_namespace destination_namespace : String) (flow_count : ℕ) → Alert
  suspicious_dns : (source query : String) → Alert
  port_scan : (source : String) (unique_ports : ℕ) (sample_ports : List ℕ) → Alert

abbrev pub internal_cidrs : List String
internal_cidrs =
    "10." ∷ "172.16." ∷ "172.17." ∷ "172.18." ∷ "172.19." ∷ "172.20." ∷ "172.21." ∷ "172.22."
    ∷ "172.23." ∷ "172.24." ∷ "172.25." ∷ "172.26." ∷ "172.27." ∷ "172.28." ∷ "172.29." ∷ "172.30."
    ∷ "172.31." ∷ "192.168." ∷ []

abbrev pub system_namespaces : List String
system_namespaces = "kube-system" ∷ "kube-public" ∷ "kube-node-lease" ∷ "cilium" ∷ "fluent-bit" ∷ []

abbrev pub suspicious_dns_patterns : List String
suspicious_dns_patterns =
    "pool." ∷ "mining." ∷ "coinhive" ∷ "cryptonight" ∷ "xmr." ∷ "monero." ∷ "nicehash" ∷ []
