-- ===== src/Provider/Cluster.antt =====
-- pkg/provider/cluster.go, endpoint.go, the rest of util.go and the keys of provider.go: services,
-- their endpoints, and the configuration that their annotations spell.
pub mod Bounds
pub mod Reading
use bent.Provider.Annotations.{
  value, panic, get_string, nonneg, get_duration_milliseconds, get_bool,
  parse_int64_range_with_fallback, Number, get_uint32, Annotations, Panics,
}
use bent.Provider.AnnotationNames.{
  annotation_health_check_path, annotation_health_interval, annotation_health_cache_duration,
  annotation_health_timeout, annotation_health_port, annotation_health_expected_status,
  annotation_cb_max_conn, annotation_cb_max_pending, annotation_cb_max_requests,
  annotation_cb_max_retries, annotation_endpoint_weight, annotation_fault_inject,
  annotation_fault_delay_percent, annotation_fault_delay_duration, annotation_fault_abort_percent,
  annotation_fault_abort_code,
}
use bent.Shared.{
  ltb, nat_eq, if◌then◌else◌, get_or, lookup, insert, ℕ, String, Bool, false, ◌||◌, List, [], ◌∷◌,
  string_key, nat_key,
}

pub record Endpoint : Type 0 where
  pub address : String
  pub annotations : Annotations
  pub port : ℕ

pub record Cluster : Type 0 where
  pub name : String
  pub endpoints : List Endpoint

pub record EndpointConfig : Type 0 where
  pub weight : ℕ

pub record FaultConfig : Type 0 where
  pub enabled : Bool
  pub delay_duration : ℕ
  pub delay_chance : ℕ
  pub abort_code : ℕ
  pub abort_chance : ℕ

pub record ClusterCircuitBreakerConfig : Type 0 where
  pub max_connections : ℕ
  pub max_pending_requests : ℕ
  pub max_requests : ℕ
  pub max_retries : ℕ

pub record ClusterHealthCheckConfig : Type 0 where
  pub path : String
  pub timeout : ℕ
  pub interval : ℕ
  pub cache_duration : ℕ
  pub port : ℕ
  pub expected_status_lower : Number
  pub expected_status_upper : Number

pub record ClusterConfig : Type 0 where
  pub health_check : ClusterHealthCheckConfig
  pub circuit_breaker : ClusterCircuitBreakerConfig
  pub fault_config : FaultConfig

-- The weight must lie between 1 and 128.
unfoldable pub parse_endpoint_annotations : Endpoint → EndpointConfig
parse_endpoint_annotations e =
    let weight = get_uint32 e.annotations annotation_endpoint_weight 64 in
    record { weight = if nat_eq weight 0 || ltb 128 weight then 64 else weight }

unfoldable pub endpoint_config : Endpoint → EndpointConfig
unfolding parse_endpoint_annotations
endpoint_config e = parse_endpoint_annotations e

-- All the fields but the expected statuses.
config_for : Annotations → Number × Number → ClusterConfig
config_for ann (lower, upper) = record {
  fault_config = record {
    enabled = get_bool ann annotation_fault_inject false;
    delay_chance = get_uint32 ann annotation_fault_delay_percent 0;
    delay_duration = get_duration_milliseconds ann annotation_fault_delay_duration 30;
    abort_chance = get_uint32 ann annotation_fault_abort_percent 0;
    abort_code = get_uint32 ann annotation_fault_abort_code 503;
  };
  circuit_breaker = record {
    max_connections = get_uint32 ann annotation_cb_max_conn 1000;
    max_pending_requests = get_uint32 ann annotation_cb_max_pending 1000;
    max_requests = get_uint32 ann annotation_cb_max_requests 1000;
    max_retries = get_uint32 ann annotation_cb_max_retries 3;
  };
  health_check = record {
    timeout = get_duration_milliseconds ann annotation_health_timeout 3000;
    interval = get_duration_milliseconds ann annotation_health_interval 10000;
    cache_duration = get_duration_milliseconds ann annotation_health_cache_duration 30000;
    path = get_string ann annotation_health_check_path "/healthz";
    port = get_uint32 ann annotation_health_port 0;
    expected_status_lower = lower;
    expected_status_upper = upper;
  };
}

-- `ann[key]` is the empty text where the key is missing.
unfoldable pub parse_cluster_annotations : Annotations → Panics ClusterConfig
unfolding config_for
parse_cluster_annotations ann =
    elim (parse_int64_range_with_fallback (get_or (lookup annotation_health_expected_status ann) "")
      (nonneg 200) (nonneg 400)) [ panic ↦ panic | value range ↦ value (config_for ann range) ]

-- The annotations of one endpoint overwrite those before it.
pub merge_into : Annotations → Annotations → Annotations
merge_into [] out = out
merge_into ((k, v) ∷ ann) out = merge_into ann (insert k v out)

pub merge_endpoints : List Endpoint → Annotations → Annotations
merge_endpoints [] out = out
merge_endpoints (ep ∷ eps) out = merge_endpoints eps (merge_into ep.annotations out)

unfoldable pub merge_annotations : Cluster → Annotations
unfolding merge_endpoints merge_into
merge_annotations cluster = merge_endpoints cluster.endpoints []

unfoldable pub cluster_config : Cluster → Panics ClusterConfig
cluster_config c = parse_cluster_annotations (merge_annotations c)

abbrev pub default_egress_traffic_port : ℕ
default_egress_traffic_port = 4000

abbrev pub default_ingress_traffic_port : ℕ
default_ingress_traffic_port = 4100

unfoldable pub make_egress_endpoints : List Endpoint → List Endpoint
make_egress_endpoints [] = []
make_egress_endpoints (ep ∷ eps) =
    record ep { port = default_ingress_traffic_port } ∷ make_egress_endpoints eps

unfoldable pub make_egress_clusters : List Cluster → List Cluster
make_egress_clusters [] = []
make_egress_clusters (c ∷ cs) =
    record { name = c.name; endpoints = make_egress_endpoints c.endpoints }
    ∷ make_egress_clusters cs
