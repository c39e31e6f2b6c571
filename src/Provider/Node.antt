-- ===== src/Provider/Node.antt =====
-- pkg/provider/node.go: the resources of one proxy, and their construction from services. The methods
-- that list the resources of a node go through its maps in the order that is their argument.
pub mod Clusters
pub mod Routes
pub mod Names
pub mod Returns
pub mod Typed
pub mod WellFormed
use bent.Cache.Resource.{cluster, listener, route, endpoint, Resource}
use bent.Provider.Annotations.{panic, ◌>>=◌, invalid, value, negative, nonneg, Panics, Number}
use bent.Envoy.{
  default, round_robin, tcp, v4_only, grpc, LocalityLbEndpoints, RouteConfiguration, eds,
  VirtualHost, ConfigSource, ClusterLoadAssignment, LbEndpoint, ListenerMessage, ClusterMessage,
}
use bent.Provider.Cluster.{
  cluster_config, default_ingress_traffic_port, endpoint_config, Cluster, Endpoint, ClusterConfig,
}
use Prim.Native.String
use mathlib.Core.List.{Perm}
use bent.Shared.{
  nat_eq, if◌then◌else◌, get_or, Map, lookup, contains, insert, format_nat, ℕ, ◌-◌, ◌/◌, ◌%◌, ◌^◌,
  String, Option, none, some, List, [], ◌∷◌, ◌++◌, map, string_key, nat_key,
}

pub record Node : Type 0 where
  pub name : String
  pub clusters : Map String ClusterMessage
  pub endpoints : Map String ClusterLoadAssignment
  pub routes : Map String RouteConfiguration
  pub vhost_exists : Map String (Map String (Unit {0}))
  pub listeners : List ListenerMessage

unfoldable pub new_node : String → Node
new_node name = record {
  name = name;
  clusters = [];
  endpoints = [];
  routes = [];
  vhost_exists = [];
  listeners = [];
}

unfoldable pub create_envoy_endpoint : List Endpoint → List LbEndpoint
create_envoy_endpoint [] = []
create_envoy_endpoint (ep ∷ eps) =
    record {
      load_balancing_weight = (endpoint_config ep).weight;
      endpoint = record { protocol = tcp; address = ep.address; port_value = ep.port };
    }
    ∷ create_envoy_endpoint eps

unfoldable pub create_xds_config_source : ConfigSource
create_xds_config_source = record { api_type = grpc; grpc_services = "xds" ∷ [] }

-- An int64 as its bit pattern.
abbrev bits : Number → ℕ
bits (nonneg n) = n
bits (negative n) = (2 ^ 64 - n) % 2 ^ 64
bits invalid = 0

-- A Duration of one second, in nanoseconds.
abbrev one_second : ℕ
one_second = 1000000000

cluster_message : String → ClusterConfig → ClusterMessage
cluster_message name cfg = record {
  name = name;
  connect_timeout = one_second;
  discovery_type = eds;
  dns_lookup_family = v4_only;
  lb_policy = round_robin;
  circuit_breakers =
      record {
        priority = default;
        max_connections = cfg.circuit_breaker.max_connections;
        max_pending_requests = cfg.circuit_breaker.max_pending_requests;
        max_requests = cfg.circuit_breaker.max_requests;
        max_retries = cfg.circuit_breaker.max_retries;
      }
      ∷ [];
  health_checks =
      record {
        timeout = cfg.health_check.timeout;
        interval = cfg.health_check.interval;
        unhealthy_threshold = 3;
        healthy_threshold = 3;
        alt_port = if nat_eq cfg.health_check.port 0 then none else some cfg.health_check.port;
        path = cfg.health_check.path;
        expected_statuses =
            record {
              start = bits cfg.health_check.expected_status_lower;
              end = bits cfg.health_check.expected_status_upper;
            }
            ∷ [];
      }
      ∷ [];
  eds_cluster_config =
      some (record { eds_config = some create_xds_config_source; service_name = "" });
}

-- A panic while the annotations are read ends the call.
unfoldable pub create_envoy_cluster : Cluster → Panics ClusterMessage
unfolding cluster_message
create_envoy_cluster c = elim (cluster_config c) [
  | panic ↦ panic
  | value cfg ↦ value (cluster_message c.name cfg)
]

-- `Endpoints[0].LbEndpoints` of an assignment with the new endpoints at its end.
append_endpoints : List LbEndpoint → List LocalityLbEndpoints → List LocalityLbEndpoints
append_endpoints eps [] = []
append_endpoints eps (l ∷ ls) = record { lb_endpoints = l.lb_endpoints ++ eps } ∷ ls

assignment_of : String → Option ClusterLoadAssignment → ClusterLoadAssignment
assignment_of name none = record {
  cluster_name = name;
  endpoints = record { lb_endpoints = [] } ∷ [];
}
assignment_of name (some a) = a

unfoldable pub add_endpoints : Node → String → List Endpoint → Node
unfolding append_endpoints assignment_of
add_endpoints n name eps =
    let a = assignment_of name (lookup name n.endpoints) in
    record n {
      endpoints =
          insert name
            (record a { endpoints = append_endpoints (create_envoy_endpoint eps) a.endpoints })
            n.endpoints;
    }

-- The node with the cluster's message, which is built only if it is missing.
ensure_cluster : Node → Cluster → Panics Node
ensure_cluster n c = if contains c.name n.clusters then value n else elim (create_envoy_cluster c) [
  | panic ↦ panic
  | value m ↦ value (record n { clusters = insert c.name m n.clusters })
]

unfoldable pub add_cluster : Node → List Cluster → Panics Node
unfolding ensure_cluster
add_cluster n [] = value n
add_cluster n (c ∷ cs) = do
  n' ← ensure_cluster n c
  add_cluster (add_endpoints n' c.name c.endpoints) cs

unfoldable pub add_listener : Node → List ListenerMessage → Node
add_listener n ls = record n { listeners = n.listeners ++ ls }

-- The virtual hosts of a route, and the names that were seen there.
abbrev pub hosts : String → Node → List VirtualHost
hosts r n = (get_or (lookup r n.routes) (record { name = r; virtual_hosts = [] })).virtual_hosts

abbrev pub seen : String → Node → Map String (Unit {0})
seen r n = get_or (lookup r n.vhost_exists) []

skip_vhost : String → Node → Node
skip_vhost r n = record n { vhost_exists = insert r (seen r n) n.vhost_exists }

append_vhost : String → Node → VirtualHost → Node
append_vhost r n v =
    let old = get_or (lookup r n.routes) (record { name = r; virtual_hosts = [] }) in
    record n {
      vhost_exists = insert r (insert v.name tt (seen r n)) n.vhost_exists;
      routes = insert r (record old { virtual_hosts = old.virtual_hosts ++ v ∷ [] }) n.routes;
    }

-- The route's virtual hosts with one more, unless one of its name was seen.
add_vhost : String → Node → VirtualHost → Node
unfolding skip_vhost append_vhost
add_vhost r n v = if contains v.name (seen r n) then skip_vhost r n else append_vhost r n v

add_vhosts : String → Node → List VirtualHost → Node
unfolding add_vhost
add_vhosts route_name n [] = n
add_vhosts route_name n (v ∷ vs) = add_vhosts route_name (add_vhost route_name n v) vs

-- The node with the route's configuration, which is made if it is missing.
ensure_route : String → Node → Node
ensure_route route_name n = if contains route_name n.routes then n else record n {
  routes = insert route_name (record { name = route_name; virtual_hosts = [] }) n.routes;
}

unfoldable pub add_route : Node → String → List VirtualHost → Node
unfolding add_vhosts ensure_route
add_route n route_name vhosts = add_vhosts route_name (ensure_route route_name n) vhosts

pub record VHostConfig : Type 0 where
  pub hostname : String
  pub cluster : String

unfoldable pub create_envoy_vhost : VHostConfig → VirtualHost
create_envoy_vhost cfg = record {
  name = String.◌++◌ "vhost_" cfg.hostname;
  domains =
      cfg.hostname
      ∷ String.◌++◌ cfg.hostname (String.◌++◌ ":" (format_nat default_ingress_traffic_port))
      ∷ [];
  routes = record { prefix = "/"; cluster = cfg.cluster } ∷ [];
}

resources_of {ℓ} : {A : Type ℓ} → (A → Resource) → Map String A → List Resource
resources_of f [] = []
resources_of f ((name, a) ∷ m) = f a ∷ resources_of f m

-- In which order Go goes through a map: it has the same entries, and may be another at each call.
pub record Order (A : Type 0) : Type 0 where
  pub ranged : Map String A → Map String A
  pub entries : (m : Map String A) → Perm (ranged m) m

unfoldable pub endpoints_of : Order ClusterLoadAssignment → Node → List Resource
unfolding resources_of
endpoints_of order n = resources_of endpoint (order.ranged n.endpoints)

unfoldable pub clusters_of : Order ClusterMessage → Node → List Resource
unfolding resources_of
clusters_of order n = resources_of cluster (order.ranged n.clusters)

unfoldable pub routes_of : Order RouteConfiguration → Node → List Resource
unfolding resources_of
routes_of order n = resources_of route (order.ranged n.routes)

unfoldable pub listeners_of : Node → List Resource
listeners_of n = map listener n.listeners
