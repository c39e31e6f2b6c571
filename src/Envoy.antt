-- ===== src/Envoy.antt =====
-- The protobuf messages of Envoy's v2 API, as plain data. Their Go code is generated and is not in
-- the repository: each record has the fields that the repository sets or reads, and no operation
-- on them is defined here. `Any` is protobuf's: a type URL and a payload of bytes.
use bent.Shared.{ℕ, String, Bool, Option, List}

pub record Any : Type 0 where
  pub type_url : String
  pub value : List ℕ

-- core.Node, of which only the identifier is read.
pub record EnvoyNode : Type 0 where
  pub id : String

pub data Protocol : Type 0 where
  tcp udp : Protocol

pub record SocketAddress : Type 0 where
  pub protocol : Protocol
  pub address : String
  pub port_value : ℕ

pub record LbEndpoint : Type 0 where
  pub load_balancing_weight : ℕ
  pub endpoint : SocketAddress

pub record LocalityLbEndpoints : Type 0 where
  pub lb_endpoints : List LbEndpoint

pub record ClusterLoadAssignment : Type 0 where
  pub cluster_name : String
  pub endpoints : List LocalityLbEndpoints

pub data DiscoveryType : Type 0 where
  static strict_dns logical_dns eds original_dst : DiscoveryType

pub data DnsLookupFamily : Type 0 where
  auto v4_only v6_only : DnsLookupFamily

pub data LbPolicy : Type 0 where
  round_robin least_request ring_hash random : LbPolicy

pub data RoutingPriority : Type 0 where
  default high : RoutingPriority

pub record Thresholds : Type 0 where
  pub priority : RoutingPriority
  pub max_connections : ℕ
  pub max_pending_requests : ℕ
  pub max_requests : ℕ
  pub max_retries : ℕ

pub record Int64Range : Type 0 where
  pub start : ℕ
  pub end : ℕ

pub record HealthCheckMessage : Type 0 where
  pub timeout : ℕ
  pub interval : ℕ
  pub unhealthy_threshold : ℕ
  pub healthy_threshold : ℕ
  pub alt_port : Option ℕ
  pub path : String
  pub expected_statuses : List Int64Range

pub data ApiType : Type 0 where
  rest_legacy rest grpc : ApiType

-- A ConfigSource that is an ApiConfigSource: its services are named by their clusters.
pub record ConfigSource : Type 0 where
  pub api_type : ApiType
  pub grpc_services : List String

pub record EdsClusterConfig : Type 0 where
  pub eds_config : Option ConfigSource
  pub service_name : String

pub record ClusterMessage : Type 0 where
  pub name : String
  pub connect_timeout : ℕ
  pub discovery_type : DiscoveryType
  pub dns_lookup_family : DnsLookupFamily
  pub lb_policy : LbPolicy
  pub circuit_breakers : List Thresholds
  pub health_checks : List HealthCheckMessage
  pub eds_cluster_config : Option EdsClusterConfig

-- A route that matches a path prefix and forwards to a cluster.
pub record Route : Type 0 where
  pub prefix : String
  pub cluster : String

pub record VirtualHost : Type 0 where
  pub name : String
  pub domains : List String
  pub routes : List Route

pub record RouteConfiguration : Type 0 where
  pub name : String
  pub virtual_hosts : List VirtualHost

-- listener.Filter: at most one of the two configurations is set; the deprecated one is a Struct,
-- which only the decoding function of `pkg/util` reads.
pub record Filter : Type 0 where
  pub name : String
  pub typed_config : Option Any
  pub config : Option Any

pub record FilterChain : Type 0 where
  pub filters : List Filter

pub record ListenerMessage : Type 0 where
  pub name : String
  pub address : SocketAddress
  pub filter_chains : List FilterChain

pub record Rds : Type 0 where
  pub route_config_name : String
  pub config_source : ConfigSource

-- The `oneof` of HttpConnectionManager's route specifiers; the pointer to `Rds` may be nil.
pub data RouteSpecifier : Type 0 where
  unset : RouteSpecifier
  route_config : RouteConfiguration → RouteSpecifier
  rds : Option Rds → RouteSpecifier

pub data OperationName : Type 0 where
  ingress egress : OperationName

pub data CodecType : Type 0 where
  codec_auto codec_http1 codec_http2 : CodecType

pub record HttpFilter : Type 0 where
  pub name : String
  pub typed_config : Option Any

pub record AccessLog : Type 0 where
  pub name : String
  pub typed_config : Option Any

pub record HttpConnectionManager : Type 0 where
  pub codec_type : CodecType
  pub stat_prefix : String
  pub allow_absolute_url : Bool
  pub access_log : List AccessLog
  pub tracing : OperationName
  pub route_specifier : RouteSpecifier
  pub http_filters : List HttpFilter

pub record Secret : Type 0 where
  pub name : String

pub record DiscoveryRequest : Type 0 where
  pub version_info : String
  pub node : Option EnvoyNode
  pub resource_names : List String
  pub type_url : String
  pub response_nonce : String

pub record DiscoveryResponse : Type 0 where
  pub version_info : String
  pub resources : List Any
  pub type_url : String
  pub nonce : String
