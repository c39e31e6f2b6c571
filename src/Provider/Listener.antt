-- ===== src/Provider/Listener.antt =====
-- pkg/provider/listener.go: the builder of a listener and its HTTP filters. `MessageToAny` of
-- pkg/util packs a message by protobuf's `MarshalAny`, which is an argument: it may fail, and the
-- configuration is then missing.
pub mod Filters
use bent.Provider.Annotations.{◌>>=◌}
use bent.Cache.Resource.{http_connection_manager}
use bent.Provider.Cluster.{cluster_config, Cluster, FaultConfig}
use bent.Provider.Annotations.{value, Panics, millisecond}
use bent.Envoy.{
  grpc, rds, codec_auto, FilterChain, tcp, ListenerMessage, HttpConnectionManager, Filter,
  OperationName, Any,
}
use Prim.Native.String
use bent.Shared.{
  ltb, if◌then◌else◌, Map, ℕ, ◌*◌, ◌^◌, String, Bool, true, false, not, ◌&&◌, Option, none, some,
  List, [], ◌∷◌,
}

pub record ListenerConfig : Type 0 where
  pub name : String
  pub tracing_operation : OperationName
  pub target_route : String
  pub address : String
  pub port : ℕ

pub record AuthzConfig : Type 0 where
  pub cluster : String

-- The builder: the envoy listener, and the connection manager that becomes its filter.
pub record Listener : Type 0 where
  pub envoy_listener : ListenerMessage
  pub hcm : HttpConnectionManager

-- fault.HTTPFault: the abort and the delay, each with its percentage.
pub record HttpFault : Type 0 where
  pub abort : Option (ℕ × ℕ)
  pub delay : Option (ℕ × ℕ)

-- authz.ExtAuthz with its HTTP service.
pub record ExtAuthz : Type 0 where
  pub failure_mode_allow : Bool
  pub uri : String
  pub timeout : ℕ
  pub cluster : String

-- hc.HealthCheck: the cache time and the path that is matched exactly.
pub record HealthCheckFilter : Type 0 where
  pub pass_through_mode : Bool
  pub cache_time : ℕ
  pub path : String

-- accesslog.FileAccessLog: its path and its JSON fields.
pub record FileAccessLog : Type 0 where
  pub path : String
  pub json_format : Map String String

-- The messages that the listener packs, and protobuf's `MarshalAny`; `none` is an error.
pub data Message : Type 0 where
  http_fault : HttpFault → Message
  ext_authz : ExtAuthz → Message
  health_check : HealthCheckFilter → Message
  file_access_log : FileAccessLog → Message
  connection_manager : HttpConnectionManager → Message

abbrev pub Marshal : Type 0
Marshal = Message → Option Any

-- The filter names of pkg/util/wellknown.go.
abbrev pub router_filter : String
router_filter = "envoy.router"

abbrev pub fault_filter : String
fault_filter = "envoy.fault"

abbrev pub health_check_filter : String
health_check_filter = "envoy.health_check"

abbrev pub authz_filter : String
authz_filter = "envoy.ext_authz"

abbrev pub file_access_log_name : String
file_access_log_name = "envoy.file_access_log"

abbrev pub json_log : Map String String
json_log =
    ("start_time", "%START_TIME%")
    ∷ ("method", "%REQ(:METHOD)%")
    ∷ ("path", "%REQ(X-ENVOY-ORIGINAL-PATH?:PATH)%")
    ∷ ("protocol", "%PROTOCOL%")
    ∷ ("response_code", "%RESPONSE_CODE%")
    ∷ ("response_flags", "%RESPONSE_FLAGS%")
    ∷ ("bytes_received", "%BYTES_RECEIVED%")
    ∷ ("bytes_sent", "%BYTES_SENT%")
    ∷ ("duration", "%DURATION%")
    ∷ ("upstream_service_time", "%RESP(X-ENVOY-UPSTREAM-SERVICE-TIME)%")
    ∷ ("x_forwarded_for", "%REQ(X-FORWARDED-FOR)%")
    ∷ ("user_agent", "%REQ(USER-AGENT)%")
    ∷ ("request_id", "%REQ(X-REQUEST-ID)%")
    ∷ ("authority", "%REQ(:AUTHORITY)%")
    ∷ ("upstream_host", "%UPSTREAM_HOST%")
    ∷ ("upstream_cluster", "%UPSTREAM_CLUSTER%")
    ∷ ("upstream_local_address", "%UPSTREAM_LOCAL_ADDRESS%")
    ∷ ("downstream_local_address", "%DOWNSTREAM_LOCAL_ADDRESS%")
    ∷ ("downstream_remote_address", "%DOWNSTREAM_REMOTE_ADDRESS%")
    ∷ ("requested_server_name", "%REQUESTED_SERVER_NAME%")
    ∷ []

module _ (message_to_any : Marshal) where
  unfoldable pub create_connection_manager : ListenerConfig → HttpConnectionManager
  create_connection_manager cfg = record {
    codec_type = codec_auto;
    stat_prefix = String.◌++◌ cfg.target_route "_http";
    allow_absolute_url = true;
    access_log =
        record {
          name = file_access_log_name;
          typed_config =
              message_to_any
                (file_access_log (record { path = "/tmp/access.log"; json_format = json_log }));
        }
        ∷ [];
    tracing = cfg.tracing_operation;
    route_specifier = rds (
        some (record {
          route_config_name = cfg.target_route;
          config_source = record { api_type = grpc; grpc_services = "xds" ∷ [] };
        }));
    http_filters = record { name = router_filter; typed_config = none } ∷ [];
  }

  unfoldable pub new_listener : ListenerConfig → Listener
  unfolding create_connection_manager
  new_listener cfg = record {
    envoy_listener = record {
      name = cfg.name;
      address = record { protocol = tcp; address = cfg.address; port_value = cfg.port };
      filter_chains = record { filters = [] } ∷ [];
    };
    hcm = create_connection_manager cfg;
  }

  prepend_filter : String → Message → Listener → Listener
  prepend_filter name m l = record l {
    hcm = record l.hcm {
      http_filters = record { name = name; typed_config = message_to_any m } ∷ l.hcm.http_filters;
    };
  }

  -- A Duration is positive if its bit pattern is, and its sign bit is not set.
  abbrev positive_duration : ℕ → Bool
  positive_duration d = ltb 0 d && ltb d (2 ^ 63)

  unfoldable pub inject_fault : FaultConfig → Listener → Listener
  unfolding prepend_filter
  inject_fault cfg l =
      if not cfg.enabled
      then l
      else prepend_filter fault_filter
          (http_fault (record {
            abort =
                if ltb 0 cfg.abort_chance && ltb 0 cfg.abort_code
                then some (cfg.abort_code, cfg.abort_chance)
                else none;
            delay =
                if ltb 0 cfg.delay_chance && positive_duration cfg.delay_duration
                then some (cfg.delay_duration, cfg.delay_chance)
                else none;
          }))
          l

  unfoldable pub inject_authz : AuthzConfig → Listener → Listener
  unfolding prepend_filter
  inject_authz cfg = prepend_filter authz_filter (
      ext_authz (record {
        failure_mode_allow = false;
        uri = "http://authfoo:3000/authenticate";
        timeout = 125 * millisecond;
        cluster = cfg.cluster;
      }))

  -- The configuration of the cluster is read anew, which may panic.
  unfoldable pub inject_health_check_cache : Cluster → Listener → Panics Listener
  unfolding prepend_filter
  inject_health_check_cache c l = do
    cfg ← cluster_config c
    value (
        prepend_filter health_check_filter
          (health_check (record {
            pass_through_mode = true;
            cache_time = cfg.health_check.cache_duration;
            path = cfg.health_check.path;
          }))
          l)

  -- `FilterChains[0].Filters` is set to the packed connection manager alone.
  set_first_chain : List Filter → List FilterChain → List FilterChain
  set_first_chain fs [] = []
  set_first_chain fs (c ∷ cs) = record { filters = fs } ∷ cs

  unfoldable pub resource : Listener → ListenerMessage
  unfolding set_first_chain
  resource l = record l.envoy_listener {
    filter_chains =
        set_first_chain
          (record {
            name = http_connection_manager;
            typed_config = message_to_any (connection_manager l.hcm);
            config = none;
          }
            ∷ [])
          l.envoy_listener.filter_chains;
  }
