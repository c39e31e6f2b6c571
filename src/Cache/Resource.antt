-- ===== src/Cache/Resource.antt =====
-- pkg/cache/resource.go: the xDS payloads, their names and the names that they refer to.
use Prim.Native.String
use bent.Shared.{
  if◌then◌else◌, ◌==◌, Map, insert, String, Bool, true, false, Option, none, some, List, [], ◌∷◌,
  string_key, nat_key,
}
use bent.Envoy.{
  Any, ClusterLoadAssignment, ClusterMessage, RouteConfiguration, ListenerMessage, Secret,
  DiscoveryType, static, strict_dns, logical_dns, eds, original_dst, EdsClusterConfig, Filter,
  FilterChain, HttpConnectionManager, RouteSpecifier, unset, route_config, rds,
}

-- The interface `Resource` by the dynamic types that the type switches tell apart; `other` is any
-- message of another type, and `null` the nil interface.
pub data Resource : Type 0 where
  endpoint : ClusterLoadAssignment → Resource
  cluster : ClusterMessage → Resource
  route : RouteConfiguration → Resource
  listener : ListenerMessage → Resource
  secret : Secret → Resource
  other : Resource
  null : Resource

abbrev pub type_prefix : String
type_prefix = "type.googleapis.com/envoy.api.v2."

abbrev pub endpoint_type : String
endpoint_type = String.◌++◌ type_prefix "ClusterLoadAssignment"

abbrev pub cluster_type : String
cluster_type = String.◌++◌ type_prefix "Cluster"

abbrev pub route_type : String
route_type = String.◌++◌ type_prefix "RouteConfiguration"

abbrev pub listener_type : String
listener_type = String.◌++◌ type_prefix "Listener"

abbrev pub secret_type : String
secret_type = String.◌++◌ type_prefix "auth.Secret"

abbrev pub any_type : String
any_type = ""

abbrev pub response_types : List String
response_types = endpoint_type ∷ cluster_type ∷ route_type ∷ listener_type ∷ secret_type ∷ []

unfoldable pub get_resource_name : Resource → String
get_resource_name (endpoint v) = v.cluster_name
get_resource_name (cluster v) = v.name
get_resource_name (route v) = v.name
get_resource_name (listener v) = v.name
get_resource_name (secret v) = v.name
get_resource_name other = ""
get_resource_name null = ""

-- envoy.http_connection_manager, of pkg/util/wellknown.go.
abbrev pub http_connection_manager : String
http_connection_manager = "envoy.http_connection_manager"

abbrev is_eds : DiscoveryType → Bool
is_eds eds = true
is_eds static = false
is_eds strict_dns = false
is_eds logical_dns = false
is_eds original_dst = false

-- The name under which a cluster of type EDS asks for its endpoints.
unfoldable pub service_name : String → Option EdsClusterConfig → String
service_name name none = name
service_name name (some c) = if c.service_name == "" then name else c.service_name

cluster_references : ClusterMessage → Map String Bool → Map String Bool
unfolding service_name
cluster_references v out =
    if is_eds v.discovery_type
    then insert (service_name v.name v.eds_cluster_config) true out
    else out

-- The decoders of a filter's configuration, which are protobuf's: the connection manager that
-- `config` holds after the call, whether or not it reported an error.
pub record Decoders : Type 0 where
  pub unmarshal_any : Any → HttpConnectionManager
  pub struct_to_message : Option Any → HttpConnectionManager

module _ (d : Decoders) where
  decode_filter : Option Any → Option Any → HttpConnectionManager
  decode_filter (some typed) config = d.unmarshal_any typed
  decode_filter none config = d.struct_to_message config

  specifier_references : RouteSpecifier → Map String Bool → Map String Bool
  specifier_references (rds (some r)) out = insert r.route_config_name true out
  specifier_references (rds none) out = out
  specifier_references (route_config r) out = out
  specifier_references unset out = out

  filter_references : Filter → Map String Bool → Map String Bool
  unfolding decode_filter specifier_references
  filter_references f out =
      if f.name == http_connection_manager
      then specifier_references (decode_filter f.typed_config f.config).route_specifier out
      else out

  filters_references : List Filter → Map String Bool → Map String Bool
  filters_references [] out = out
  filters_references (f ∷ fs) out = filters_references fs (filter_references f out)

  chains_references : List FilterChain → Map String Bool → Map String Bool
  chains_references [] out = out
  chains_references (c ∷ cs) out = chains_references cs (filters_references c.filters out)

  -- The body of the loop over the resources.
  add_references : Resource → Map String Bool → Map String Bool
  unfolding chains_references filters_references filter_references cluster_references
  add_references null out = out
  add_references (endpoint v) out = out
  add_references (cluster v) out = cluster_references v out
  add_references (route v) out = out
  add_references (listener v) out = chains_references v.filter_chains out
  add_references (secret v) out = out
  add_references other out = out

  references_from : Map String Resource → Map String Bool → Map String Bool
  references_from [] out = out
  references_from ((name, res) ∷ rest) out = references_from rest (add_references res out)

  unfoldable pub get_resource_references : Map String Resource → Map String Bool
  unfolding references_from add_references
  get_resource_references resources = references_from resources []
